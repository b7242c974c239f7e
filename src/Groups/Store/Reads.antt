-- ===== src/Groups/Store/Reads.antt =====
-- What the group store answers: store.rs, the reads of `Groups`.
use p2parchiver.Common.{
  ℕ, ◌+◌, Bool, true, false, not, ◌&&◌, ◌||◌, Option, none, some, List, [], ◌∷◌, map, if◌then◌else◌,
  keep_if,
}
use p2parchiver.Common.Bytes.{bytes_eq, bytes_lt}
use p2parchiver.Common.Map
use p2parchiver.Common.Map.{Map}
use p2parchiver.Common.Result.{Result, ok, err, ◌>>=◌, ok_or}
use p2parchiver.Platform.{Platform, PeerId, Cbor}
use p2parchiver.Common.Keyed.{Keyed}
use p2parchiver.Groups.Id.{GroupId}
use p2parchiver.Groups.Chain.Types.{Entry, EntryBody, ChainError}
use p2parchiver.Groups.Chain.{Chain, load, len, entries_between, departure_seq}
use p2parchiver.Groups.Standing.{Standing, StandingError, Position, is_departure}
use p2parchiver.Groups.Members
use p2parchiver.Groups.Members.{Members, Member}
use p2parchiver.Groups.Sync.Wire.{GroupHead, GroupRow, Served, State, StoreError, active, left}
use p2parchiver.Groups.Store.Tables
use p2parchiver.Groups.Store.Tables.{Tables, GroupRecord, StandingRow}

-- `ok_or(StoreError::UnknownGroup { group })`
abbrev pub require : Tables → GroupId → Result StoreError GroupRow
require t g = ok_or (Tables.get t g) (StoreError.unknown_group g)

-- `ORDER BY name, group_id`
abbrev pub before : GroupRow → GroupRow → Bool
before a b = bytes_lt a.name b.name || (bytes_eq a.name b.name && bytes_lt a.id b.id)

unfoldable pub insert_row : (GroupRow → GroupRow → Bool) → GroupRow → List GroupRow → List GroupRow
insert_row lt r [] = r ∷ []
insert_row lt r (x ∷ xs) = let rest = insert_row lt r xs in if lt x r then x ∷ rest else r ∷ x ∷ xs

unfoldable pub sort_rows : (GroupRow → GroupRow → Bool) → Keyed GroupRecord → List GroupRow
sort_rows lt [] = []
sort_rows lt ((g, r) ∷ m) = insert_row lt r.row (sort_rows lt m)

-- `Groups::list`
unfoldable pub list : Tables → List GroupRow
list t = sort_rows before t.groups

-- `GroupRow::head`
abbrev pub head_of_row : GroupRow → GroupHead
head_of_row r = record {
  group = r.id;
  head_seq = r.head_seq;
  head_hash = r.head_hash;
  standings = r.standings_digest;
}

abbrev pub is_active : State → Bool
is_active active = true
is_active _ = false

abbrev pub is_shown : State → Bool
is_shown left = false
is_shown _ = true

-- `Groups::standings`
abbrev pub standings : Tables → GroupId → List Standing
standings t g = map (λ row. row.standing) (Map.values (t.group_standings g))

-- The loop of `Groups::members`.
unfoldable pub read_members : Members → Members → Members
read_members [] m = m
read_members ((p, row) ∷ rows) m =
    read_members rows (Members.set_username p row.username (Members.insert p row.is_admin m))

-- `Groups::members`
unfoldable pub members : Tables → GroupId → Members
members t g = read_members (t.group_members g) []

unfoldable pub departed_rows : Map StandingRow → List PeerId
departed_rows [] = []
departed_rows ((p, row) ∷ rows) =
    let rest = departed_rows rows in if is_departure row.position then p ∷ rest else rest

-- `Groups::departed`
abbrev pub departed : Tables → GroupId → List PeerId
departed t g = departed_rows (t.group_standings g)

-- `Groups::positions`, for one peer.
abbrev position_in : Option StandingRow → Option Position
position_in none = none
position_in (some row) = some row.position

abbrev pub position_of : Tables → GroupId → PeerId → Option Position
position_of t g p = position_in (Map.get p (t.group_standings g))

abbrev pub seq_in : Option StandingRow → Option ℕ
seq_in none = none
seq_in (some row) = some row.seq

-- `Groups::my_standing_seq`
abbrev pub my_standing_seq : PeerId → Tables → GroupId → Option ℕ
my_standing_seq me t g = seq_in (Map.get me (t.group_standings g))

module _ (me : PeerId) where
  -- `heads_shared`: both peers are members, and the state is one of those asked for.
  unfoldable pub heads_shared : Tables → PeerId → (State → Bool) → List GroupHead
  heads_shared t peer in_states = map head_of_row (
      keep_if
        (λ r.
          Map.contains peer (t.group_members r.id)
          && Map.contains me (t.group_members r.id)
          && in_states r.state)
        (sort_rows (λ a b. bytes_lt a.id b.id) t.groups))

  -- `Groups::shared_with`
  abbrev pub shared_with : Tables → PeerId → List GroupHead
  shared_with t peer = heads_shared t peer is_active

  -- `Groups::log_shared_with`
  abbrev pub log_shared_with : Tables → PeerId → List GroupHead
  log_shared_with t peer = heads_shared t peer is_shown

abbrev pub chain_error : {A : Type 0} → Result ChainError A → Result StoreError A
chain_error (ok a) = ok a
chain_error (err e) = err (StoreError.chain e)

abbrev pub standing_error : {A : Type 0} → Result StandingError A → Result StoreError A
standing_error (ok a) = ok a
standing_error (err e) = err (StoreError.standing e)

module _ (X : Platform) (cbor : Cbor EntryBody) where
  abbrev pub chain_of : GroupId → List Entry → Result StoreError Chain
  chain_of g [] = err (StoreError.unknown_group g)
  chain_of g (e ∷ es) = chain_error (load X cbor (e ∷ es))

  -- `Groups::chain`: the stored entries in order, verified again.
  unfoldable pub chain : Tables → GroupId → Result StoreError Chain
  chain t g = chain_of g (Map.values (t.group_entries g))

  abbrev pub up_to : ℕ → Option ℕ → Chain → Option Served
  up_to from none c = none
  up_to from (some removed_at) c =
      some (record { entries = entries_between c from (removed_at + 1); standings = [] })

  abbrev pub serve_chain : Members → Tables → GroupId → PeerId → ℕ → Chain → Option Served
  serve_chain m t g peer from c =
      if Members.contains m peer
      then some (record { entries = entries_between c from (len c); standings = standings t g })
      else up_to from (departure_seq X c peer) c

  -- `Groups::serve`
  unfoldable pub serve : PeerId → Tables → GroupId → PeerId → ℕ → Result StoreError (Option Served)
  serve me t g peer from =
      if not (Members.contains (members t g) me)
      then ok none
      else (do c ← chain t g; ok (serve_chain (members t g) t g peer from c))
