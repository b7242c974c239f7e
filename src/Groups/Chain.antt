-- ===== src/Groups/Chain.antt =====
-- crates/ac-groups/src/chain.rs: the membership log of a group, checked entry by entry. The proofs
-- are in the modules below.
pub mod Types
pub mod Rules
pub mod Extend
pub mod Induction
pub mod Replay
pub mod Membership
pub mod Departure
pub mod Link
use p2parchiver.Common.{
  ℕ, zero, suc, ◌+◌, min, Bool, true, false, not, ◌||◌, Option, none, some, List, [], ◌∷◌, ◌++◌,
  map, length, ltb, ◌==◌, if◌then◌else◌, get_elem?, take, drop,
}
use p2parchiver.Common.Bytes.{Bytes, bytes_eq}
use p2parchiver.Common.Map
use p2parchiver.Common.Int.{ℤ}
use p2parchiver.Common.Result.{Result, ok, err, ◌>>=◌, ◌>>◌, fail_if, ok_or}
use p2parchiver.Platform.{Platform, PeerId, Cbor}
use p2parchiver.Net.Identity.{public_key_of}
use p2parchiver.Groups.Id.{GroupId, EntryHash, zero_group, no_parent, of_genesis}
use p2parchiver.Groups.Members
use p2parchiver.Groups.Members.{Members}
use Types.{
  Entry, EntryBody, Op, ChainError, no_genesis, malformed_genesis, too_large, out_of_order,
  broken_link, wrong_group, admin_key, bad_signature, unparseable_peer, unusable_peer, self_removal,
  not_a_member, bad_name, not_admin, second_genesis, max_entry_bytes, max_name_len, wire_len, hash,
  decode, sign,
}

pub record Verified : Type 0 where
  pub entry : Entry
  pub body : EntryBody
  pub hash : EntryHash

pub record Chain : Type 0 where
  pub id : GroupId
  pub admin : PeerId
  pub entries : List Verified

abbrev pub len : Chain → ℕ
len c = length c.entries

abbrev pub last_hash : EntryHash → List Verified → EntryHash
last_hash h [] = h
last_hash h (v ∷ vs) = last_hash v.hash vs

-- `Chain::head`
abbrev pub head : Chain → EntryHash
head c = last_hash no_parent c.entries

abbrev pub hash_of : Option Verified → Option EntryHash
hash_of none = none
hash_of (some v) = some v.hash

unfoldable pub hash_at : Chain → ℕ → Option EntryHash
hash_at c seq = hash_of (get_elem? c.entries seq)

abbrev op_name : Op → Bytes
op_name (Op.create admin nonce name) = name
op_name _ = []

abbrev first_name : List Verified → Bytes
first_name [] = []
first_name (v ∷ vs) = op_name v.body.op

-- `Chain::name`
unfoldable pub name : Chain → Bytes
name c = first_name c.entries

abbrev pub entries_of : List Verified → List Entry
entries_of = map (λ v. v.entry)

-- `Chain::entries`
abbrev pub entries : Chain → List Entry
entries c = entries_of c.entries

-- `Chain::entries_between`
unfoldable pub entries_between : Chain → ℕ → ℕ → List Entry
entries_between c from to = entries_of (drop (min from to) (take to c.entries))

-- `Chain::entries_from`
unfoldable pub entries_from : Chain → ℕ → List Entry
unfolding entries_between
entries_from c from = entries_between c from (len c)

abbrev pub push : Chain → Verified → Chain
push c v = record c { entries = c.entries ++ v ∷ [] }

module _ (X : Platform) where
  abbrev pub insert_parsed : Option PeerId → Bool → Members → Members
  insert_parsed none is_admin m = m
  insert_parsed (some p) is_admin m = Members.insert p is_admin m

  abbrev pub remove_parsed : Option PeerId → Members → Members
  remove_parsed none m = m
  remove_parsed (some p) m = (Members.remove p m).0

  -- The effect of one entry on the membership; a peer that does not parse is passed over.
  unfoldable pub apply_op : Members → Op → Members
  apply_op m (Op.create admin nonce name) = insert_parsed (X.parse_peer_id admin) true m
  apply_op m (Op.add peer) = insert_parsed (X.parse_peer_id peer) false m
  apply_op m (Op.remove peer) = remove_parsed (X.parse_peer_id peer) m

  unfoldable pub fold_from : Members → List Verified → Members
  unfolding apply_op
  fold_from m [] = m
  fold_from m (v ∷ vs) = fold_from (apply_op m v.body.op) vs

  -- `Chain::fold`
  unfoldable pub fold : Chain → Members
  unfolding fold_from
  fold c = fold_from [] c.entries

  abbrev pub departure_op : Bytes → ℕ → Option ℕ → Op → Option ℕ
  departure_op wanted seq removed_at (Op.add peer) =
      if bytes_eq peer wanted then none else removed_at
  departure_op wanted seq removed_at (Op.remove peer) =
      if bytes_eq peer wanted then some seq else removed_at
  departure_op wanted seq removed_at (Op.create admin nonce name) =
      if bytes_eq admin wanted then none else removed_at

  unfoldable pub departure_from : Bytes → ℕ → Option ℕ → List Verified → Option ℕ
  departure_from wanted seq removed_at [] = removed_at
  departure_from wanted seq removed_at (v ∷ vs) =
      departure_from wanted (suc seq) (departure_op wanted seq removed_at v.body.op) vs

  -- `Chain::departure_seq`
  unfoldable pub departure_seq : Chain → PeerId → Option ℕ
  unfolding departure_from
  departure_seq c peer = departure_from (X.to_base58 peer) 0 none c.entries

  unfoldable pub verify_signature : Entry → PeerId → ℕ → Result ChainError (Unit {0})
  verify_signature entry admin seq = do
    key ← ok_or (public_key_of X admin) (admin_key (X.to_base58 admin))
    fail_if (not (X.verify key entry.body entry.signature)) (bad_signature seq)
    ok tt

  unfoldable pub parse_peer : Bytes → ℕ → Result ChainError PeerId
  parse_peer raw seq = ok_or (X.parse_peer_id raw) (unparseable_peer seq raw)

  unfoldable pub check_name : Bytes → ℕ → Result ChainError (Unit {0})
  check_name name seq = fail_if (length name == 0 || ltb max_name_len (length name)) (bad_name seq)

  -- `let Op::Create { admin, name, .. } = &body.op else { .. }`
  abbrev pub created : Op → Result ChainError (Bytes × Bytes)
  created (Op.create admin nonce name) = ok (admin, name)
  created _ = err no_genesis

  -- What `check_next` asks of the operation that the admin signed.
  unfoldable pub check_op : Chain → ℕ → Op → Result ChainError (Unit {0})
  unfolding parse_peer
  check_op c seq (Op.create admin nonce name) = err (second_genesis seq)
  check_op c seq (Op.add peer) = do
    p ← parse_peer peer seq
    key ← ok_or (public_key_of X p) (unusable_peer seq (X.to_base58 p))
    ok tt
  check_op c seq (Op.remove peer) = do
    p ← parse_peer peer seq
    fail_if (p == c.admin) (self_removal seq)
    fail_if (not (Members.contains (fold c) p)) (not_a_member seq (X.to_base58 p))
    ok tt

module _ (X : Platform) (cbor : Cbor EntryBody) where
  unfoldable pub check_genesis : Entry → Result ChainError (GroupId × PeerId × Verified)
  check_genesis entry = do
    fail_if (ltb max_entry_bytes (wire_len entry)) (too_large 0 (wire_len entry))
    body ← decode X cbor entry
    fail_if (not (body.seq == 0)) (out_of_order 0 body.seq)
    fail_if (not (bytes_eq body.prev no_parent) || not (bytes_eq body.group zero_group))
        malformed_genesis
    (admin, name) ← created X body.op
    check_name X name 0
    admin' ← ok_or (X.parse_peer_id admin) (unparseable_peer 0 admin)
    verify_signature X entry admin' 0
    ok (
      of_genesis X entry.body,
      admin',
      record { entry = entry; body = body; hash = hash X cbor entry },
    )

  unfoldable pub check_next : Chain → Entry → Result ChainError Verified
  check_next c entry = do
    fail_if (ltb max_entry_bytes (wire_len entry)) (too_large (len c) (wire_len entry))
    body ← decode X cbor entry
    fail_if (not (body.seq == len c)) (out_of_order (len c) body.seq)
    fail_if (not (bytes_eq body.group c.id)) (wrong_group body.seq body.group)
    fail_if (not (bytes_eq body.prev (head c))) (broken_link body.seq)
    verify_signature X entry c.admin body.seq
    check_op X c body.seq body.op
    ok (record { entry = entry; body = body; hash = hash X cbor entry })

  -- The loop of `Chain::extend`: `view` grows with each entry that passes.
  unfoldable pub stage : Chain → List Entry → Result ChainError (List Verified)
  stage view [] = ok []
  stage view (entry ∷ rest) = do
    verified ← check_next view entry
    staged ← stage (push view verified) rest
    ok (verified ∷ staged)

  abbrev commit : Chain → Result ChainError (List Verified) → Chain × Result ChainError ℕ
  commit c (ok staged) = (record c { entries = c.entries ++ staged }, ok (length staged))
  commit c (err e) = (c, err e)

  -- `Chain::extend`
  unfoldable pub extend : Chain → List Entry → Chain × Result ChainError ℕ
  extend c new = commit c (stage c new)

  abbrev pub extended : Chain × Result ChainError ℕ → Result ChainError Chain
  extended (c, ok n) = ok c
  extended (c, err e) = err e

  -- `Chain::load`
  unfoldable pub load : List Entry → Result ChainError Chain
  load [] = err no_genesis
  load (genesis ∷ rest) = do
    (id, admin, verified) ← check_genesis genesis
    extended (extend (record { id = id; admin = admin; entries = verified ∷ [] }) rest)

  -- `Chain::create`
  unfoldable pub create : X.Keypair → Bytes → Bytes → ℤ → Result ChainError Chain
  create key name nonce at = do
    let admin = X.peer_of_key key
    entry ← sign X cbor key (record {
      group = zero_group;
      seq = 0;
      prev = no_parent;
      at = at;
      op = Op.create (X.to_base58 admin) nonce name;
    })
    load (entry ∷ [])

  abbrev authored : Entry → Chain × Result ChainError ℕ → Chain × Result ChainError Entry
  authored entry (c, ok n) = (c, ok entry)
  authored entry (c, err e) = (c, err e)

  abbrev append_signed : Chain → Result ChainError Entry → Chain × Result ChainError Entry
  append_signed c (ok entry) = authored entry (extend c (entry ∷ []))
  append_signed c (err e) = (c, err e)

  -- `Chain::author`
  unfoldable pub author : Chain → X.Keypair → Op → ℤ → Chain × Result ChainError Entry
  author c key op at =
      if not (X.peer_of_key key == c.admin)
      then (c, err not_admin)
      else append_signed c
          (sign X cbor key (record { group = c.id; seq = len c; prev = head c; at = at; op = op }))
