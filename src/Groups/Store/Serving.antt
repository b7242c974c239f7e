-- ===== src/Groups/Store/Serving.antt =====
-- What a node sends of a group: store.rs, serve and members.
use p2parchiver.Common.{
  ℕ, ◌+◌, ◌≡◌, refl, sym, ap, ◌∙◌, Bool, true, false, ◌||◌, Option, none, some, [], ◌∷◌, arith,
  get_elem?, take, drop, any_of, length-take,
}
use p2parchiver.Common.Bytes.{Bytes}
use p2parchiver.Common.Map
use p2parchiver.Common.Map.{Map}
use p2parchiver.Common.Result.{ok, ok-injective}
use p2parchiver.Platform.{Platform, PeerId, Cbor}
use p2parchiver.Groups.Id.{GroupId}
use p2parchiver.Groups.Chain.Types.{EntryBody, Op}
use p2parchiver.Groups.Chain.{Chain, fold, entries, entries_between}
use p2parchiver.Groups.Standing.{StandingBody}
use p2parchiver.Groups.Members
use p2parchiver.Groups.Members.{Members, Member}
use p2parchiver.Groups.Sync.Wire.{GroupRow, Served}
use p2parchiver.Groups.Store.Tables
use p2parchiver.Groups.Store.Tables.{held_of, head_is, Tables, GroupRecord, StandingRow}
use p2parchiver.Groups.Store.Reads.{chain}
use p2parchiver.Groups.Store.Coherent.{IsCoherent}
use p2parchiver.Groups.Store.Tables.{row_of, at_group, update_group, load_rows}
use p2parchiver.Groups.Store.Frame.{}
use p2parchiver.Groups.Chain.{entries_of}
use p2parchiver.Groups.Store.Reads.{chain}
use p2parchiver.Groups.Store.Growth.{InStep-chain}
use p2parchiver.Groups.Chain.{Verified}
use p2parchiver.Platform.{PeerText}
use p2parchiver.Groups.Chain.Membership.{contains-insert}
use p2parchiver.Groups.Chain.Departure.{admits}
use p2parchiver.Groups.Store.Loaded.{contains-name_from}
use p2parchiver.Groups.Store.Reads.{members, read_members, serve, standings}
use p2parchiver.Common.{drop-min, map-drop, map-take}

contains-set_username :
    (p : PeerId) (u : Option Bytes) (m : Members) (q : PeerId)
    → Members.contains (Members.set_username p u m) q ≡ Members.contains m q
unfolding Members.set_username
contains-set_username p u m q =
    ground (arith, Map.get-modify p q (λ x. record x { username = u }) m)

-- The members that are read back are those of the cached rows.
contains-read_members :
    (X : Platform) (rows m : Members) (q : PeerId)
    → Members.contains (read_members rows m) q ≡ (Map.contains q rows || Members.contains m q)
unfolding read_members
contains-read_members X [] m q = refl
contains-read_members X ((p, row) ∷ rows) m q = ground (
  arith,
  contains-read_members X rows
      (Members.set_username p row.username (Members.insert p row.is_admin m)) q,
  contains-set_username p row.username (Members.insert p row.is_admin m) q,
  contains-insert X p q row.is_admin m,
)

module _ (X : Platform) (ecbor : Cbor EntryBody) (scbor : Cbor StandingBody) (me : PeerId) where
  -- In coherent tables the members of a group are those of its chain.
  pub members-coherent :
      (t : Tables) (g : GroupId) (r : GroupRow) (c : Chain) (q : PeerId)
      → IsCoherent X ecbor scbor t
      → Tables.get t g ≡ some r
      → chain X ecbor t g ≡ ok c
      → Members.contains (members t g) q ≡ Members.contains (fold X c) q
  unfolding members
  members-coherent t g r c q coherent found held =
      let step = (coherent g).in_step r found in
      let same : step.held ≡ c =
        ok-injective
          (sym (InStep-chain X ecbor scbor me t g step.held step.loads step.numbered) ∙ held) in
      let read = contains-read_members X (t.group_members g) [] q in
      let cached =
        ap (Map.contains q) step.members_agree
        ∙ contains-name_from (load_rows X scbor (t.group_standings g) []) (fold X step.held) q
        ∙ ap (λ x. Members.contains (fold X x) q) same in
      read ∙ ap (λ b. b || false) cached ∙ or_false (Members.contains (fold X c) q)
    where
      or_false : (b : Bool) → (b || false) ≡ b
      or_false true = refl
      or_false false = refl

  pub entries_between-drop :
      (c : Chain) (from to : ℕ) → entries_between c from to ≡ drop from (take to (entries c))
  unfolding entries_between
  entries_between-drop c from to =
      ap entries_of
        (drop-min from to (take to c.entries) (ground (arith, length-take to c.entries)))
      ∙ map-drop _ from (take to c.entries)
      ∙ ap (drop from) (map-take _ to c.entries)

  module _ (text : PeerText X) where
    -- What a node may send of a group to a peer: all to a member, up to its removal to a former
    -- member, and nothing to anybody else.
    pub data Entitled (t : Tables) (g : GroupId) (c : Chain) (peer : PeerId) (from : ℕ)
        : Option Served → Type 0 where
      outside : Members.contains (fold X c) me ≡ false → Entitled t g c peer from none
      whole :
          Members.contains (fold X c) me ≡ true
          → Members.contains (fold X c) peer ≡ true
          → Entitled t g c peer from
              (some (record { entries = drop from (entries c); standings = standings t g }))
      until :
          (n : ℕ) (v : Verified)
          → Members.contains (fold X c) peer ≡ false
          → get_elem? c.entries n ≡ some v
          → v.body.op ≡ Op.remove (X.to_base58 peer)
          → Entitled t g c peer from
              (some (record { entries = drop from (take (n + 1) (entries c)); standings = [] }))
      stranger :
          Members.contains (fold X c) peer ≡ false
          → any_of (admits (X.to_base58 peer)) c.entries ≡ false
          → Entitled t g c peer from none

    -- An answer that the peer is entitled to.
    abbrev pub ServedAs : Tables → GroupId → Chain → PeerId → ℕ → Type 0
    ServedAs t g c peer from =
        (o : Option Served) × (serve X ecbor me t g peer from ≡ ok o) × Entitled t g c peer from o
