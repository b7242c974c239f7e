-- ===== src/Lib.antt =====
-- p2parchiver: a peer-to-peer archive of files shared by groups. A verification of its core logic.
--
-- A node runs a set of machines without I/O, each a crate of the repository, that a daemon wires to
-- libp2p and to the disk. A server attests who each node is; two nodes check one another's attestation
-- before either talks (the admission). The members of a group are the fold of a chain of entries that
-- its admin signs, and each member signs standings about itself; a sync asks peers that are admitted
-- and settled for what it lacks, a few groups at a time.
--
-- What is modelled, and where:
-- - Net: crates/ac-net. Identity (identity.rs: public_key_of), Username (attest.rs:
--   normalise_username), Attest (attest.rs: Attestation::issue, statement, verify, expires_at,
--   needs_renewal), Admission (admission.rs: every event of Admission::on, and on_request),
--   Connectivity (connectivity.rs), AdmittedPeers (admitted_peers.rs) and Budget (budget.rs).
-- - Groups: crates/ac-groups. Id (id.rs: the tagged hashes), Chain (chain.rs: Entry, Chain::create,
--   load, extend, author, fold, departure_seq, check_genesis, check_next), Standing (standing.rs:
--   Standing::author, verify, next_seq, StandingSet), Members (members.rs: the membership map and
--   standings_digest) and Sync (sync.rs: GroupSync::on and on_request, with the messages of wire.rs).
--   The sync reads and writes the store through an interface, Groups.Sync.Wire.StoreOps.
-- - Groups.Store: crates/ac-groups/src/store.rs. Tables (the four tables, the statements on
--   them, set_state, forget, news and news_told),
--   Reads (get, list, chain, standings, members, shared_with, serve, departed, my_standing_seq) and
--   Writes (create, put, author, author_standing, adopt and what they call), with Intake for the loop of
--   put over the standings; Composed fills the
--   interface of the sync with them. The other modules are proofs: Coherent says when the rows of a
--   group agree, Frame that a statement touches one group, Ledger what is left when all but the chains
--   is forgotten.
-- - Files: crates/ac-files. Path (path.rs: RelPath::parse, from_fs, join_under, file_name, under),
--   Conflict (RelPath::conflict_name) and DirName (dirname.rs: sanitize, trim_edges); Split, Inside,
--   Parts, Clean, Sanitized, Renamed, Marked and Conflicted are proofs.
-- - Desktop: crates/ac-desktop. Undo (selection.rs: Selection::did and take_back).
-- - Common holds the tests on numbers, lists, byte strings, maps, results and signed integers that
--   the parts share. Platform is what the crates take from libp2p, sha2, ciborium and Unicode. Tests
--   holds concrete inputs.
--
-- How the state corresponds:
-- - A struct is a record with the source's fields, an enum a data type with its variants. A method
--   that changes self takes the state and returns the new one beside its result. A Result is a
--   Result with the source's errors, and `?` is its bind.
-- - A PeerId is a number. Its text, its bytes and the key inside it are functions of the Platform, and
--   so are signatures, SHA-256, CBOR and the case of letters. Nothing is assumed of them but where a
--   theorem takes PeerText, SigningLaws, RoundTrips, TrimLaws or CaseLaws.
-- - A String or a Vec<u8> is the list of its bytes, and a char the bytes that it takes. A filesystem path
--   is the list of its components; what begins with a path prefix is a parameter of join_under, as only
--   Windows has any (`C:`). A BTreeMap or HashMap is the list of its entries in
--   key order, or newest first where the key is a group, so a HashMap is given one order of iteration.
-- - An i64 is an integer without bounds, and a u64 or a usize a number; next_seq keeps its
--   wrap-around, and the eight bytes of a digest's seq are those of the number modulo 2^64. An
--   Instant is a number of nanoseconds. A clock that the code reads is an argument.
-- - A table is the map from its primary key to its other columns, and a column holds the value that its
--   text stands for, so a row always parses. Rows that SQL orders by a peer are in the order of the
--   peers' numbers. A transaction is a function of the tables that takes effect if it returns ok. Since
--   a write reads its chain before its transaction begins, put_from and author_from take the tables
--   that were read and those that the transaction finds; put is the case where both are one.
-- - The loops are recursion on lists, but for drain_deferred, which may push on the queue that it
--   pops: it has fuel for every entry of the queue, one for each turn: a turn that starts a fetch has room
--   for it, and then pushes nothing. trim_edges has fuel for every byte, and each of its rounds but the
--   last takes one away.
--
-- What is not modelled: disk and network I/O, log lines, the texts of error messages, SQL statements
-- that fail, Groups::resolve, the log and the content of files, and the crates for the supervisor,
-- import, the server and the rest of the desktop application.
pub mod Common
pub mod Platform
pub mod Net
pub mod Desktop
pub mod Groups
pub mod Files
mod Tests
