-- ===== src/Groups/Store/Tables.antt =====
-- The tables of the group store (crates/ac-groups/src/store.rs, from_connection) and the statements
-- that write them. A column holds the value that its text stands for. A statement runs to its end:
-- errors of the database have no part here.
use p2parchiver.Common.{
  ℕ, ◌+◌, Bool, true, false, Option, none, some, List, [], ◌∷◌, ◌==◌, if◌then◌else◌,
}
use p2parchiver.Common.Bytes.{bytes_eq}
use p2parchiver.Common.Map
use p2parchiver.Common.Map.{Map}
use p2parchiver.Common.Result.{Result, ok, err}
use p2parchiver.Platform.{Platform, PeerId, Cbor}
use p2parchiver.Common.Keyed
use p2parchiver.Common.Keyed.{Keyed}
use p2parchiver.Groups.Id.{GroupId, EntryHash}
use p2parchiver.Groups.Chain.Types.{Entry}
use p2parchiver.Groups.Chain.{Chain, fold}
use p2parchiver.Groups.Standing.{
  Standing, StandingBody, StandingSet, StandingError, Position, unanswered, «in», out, is_departure,
  next_seq, Held,
}
use p2parchiver.Groups.Standing
use p2parchiver.Groups.Members
use p2parchiver.Groups.Members.{Members, Member}
use p2parchiver.Groups.Sync.Wire.{GroupRow, State}

-- One row of `groups`: what `row_to_group` reads, and the column `news`.
pub record GroupRecord : Type 0 where
  pub row : GroupRow
  pub news : ℕ

-- One row of `group_standings`, without its key.
pub record StandingRow : Type 0 where
  pub seq : ℕ
  pub position : Position
  pub standing : Standing

-- `groups` by id; the other tables by group, then by the rest of their primary key.
pub record Tables : Type 0 where
  pub groups : Keyed GroupRecord
  pub group_entries : GroupId → Map Entry
  pub group_standings : GroupId → Map StandingRow
  pub group_members : GroupId → Members

-- A write to the rows of one group.
abbrev pub at_group : {A : Type 0} → GroupId → A → (GroupId → A) → GroupId → A
at_group g a rows h = if bytes_eq g h then a else rows h

-- `UPDATE groups SET .. WHERE group_id = ?1`
abbrev pub update_group : GroupId → (GroupRow → GroupRow) → Tables → Tables
update_group g f t = record t { groups = Keyed.modify g (λ r. record r { row = f r.row }) t.groups }

abbrev pub row_of : Option GroupRecord → Option GroupRow
row_of none = none
row_of (some r) = some r.row

-- `Groups::get`
abbrev pub get : Tables → GroupId → Option GroupRow
get t g = row_of (Keyed.find g t.groups)

-- `INSERT OR IGNORE` of one entry.
abbrev pub insert_entry : ℕ → Entry → Map Entry → Map Entry
insert_entry seq e rows = if Map.contains seq rows then rows else Map.insert seq e rows

unfoldable pub insert_entries : ℕ → List Entry → Map Entry → Map Entry
insert_entries from [] rows = rows
insert_entries from (e ∷ es) rows = insert_entries (from + 1) es (insert_entry from e rows)

-- `write_entries`
unfoldable pub write_entries : GroupId → ℕ → List Entry → Tables → Tables
write_entries g from es t = record t {
  group_entries = at_group g (insert_entries from es (t.group_entries g)) t.group_entries;
}

abbrev pub head_is : ℕ → Option GroupRow → Bool
head_is observed none = false
head_is observed (some r) = r.head_seq == observed

-- `set_head`, with whether a row changed: a head other than the observed one stays.
unfoldable pub set_head : GroupId → ℕ → ℕ → EntryHash → Tables → Tables × Bool
set_head g observed head_seq head_hash t =
    if head_is observed (get t g)
    then (update_group g (λ r. record r { head_seq = head_seq; head_hash = head_hash }) t, true)
    else (t, false)

-- `write_standing`: the row of a group and peer is replaced.
unfoldable pub write_standing : GroupId → PeerId → StandingRow → Tables → Tables
write_standing g peer row t = record t {
  group_standings = at_group g (Map.insert peer row (t.group_standings g)) t.group_standings;
}

-- `note_news`
unfoldable pub note_news : GroupId → Tables → Tables
note_news g t = record t { groups = Keyed.modify g (λ r. record r { news = r.news + 1 }) t.groups }

abbrev news_of : Option GroupRecord → ℕ
news_of none = 0
news_of (some r) = r.news

-- `Groups::news`
abbrev pub news : Tables → GroupId → ℕ
news t g = news_of (Keyed.find g t.groups)

-- `Groups::news_told`
unfoldable pub news_told : GroupId → Tables → Tables
news_told g t = record t { groups = Keyed.modify g (λ r. record r { news = 0 }) t.groups }

-- `Groups::set_state`
unfoldable pub set_state : GroupId → State → Tables → Tables
set_state g state t = update_group g (λ r. record r { state = state }) t

-- `Groups::forget`
unfoldable pub forget : GroupId → Tables → Tables
forget g t = record {
  groups = Keyed.erase g t.groups;
  group_entries = at_group g [] t.group_entries;
  group_standings = at_group g [] t.group_standings;
  group_members = at_group g [] t.group_members;
}

abbrev pub held_of : StandingRow → StandingBody → Held
held_of row body = record {
  standing = row.standing;
  seq = row.seq;
  position = row.position;
  username = body.username;
}

module _ (X : Platform) (cbor : Cbor StandingBody) where
  abbrev pub load_row :
      PeerId → StandingRow → Result StandingError StandingBody → StandingSet → StandingSet
  load_row peer row (ok body) set = (Standing.insert peer (held_of row body) set).0
  load_row peer row (err e) set = set

  -- The loop of `load_standings`.
  unfoldable pub load_rows : Map StandingRow → StandingSet → StandingSet
  load_rows [] set = set
  load_rows ((peer, row) ∷ rows) set =
      load_rows rows (load_row peer row (Standing.decode X cbor row.standing) set)

  -- `load_standings`
  unfoldable pub load_standings : Tables → GroupId → StandingSet
  load_standings t g = load_rows (t.group_standings g) []

  -- `rebuild_caches`
  unfoldable pub rebuild_caches : GroupId → Chain → StandingSet → Tables → Tables
  rebuild_caches g c set t =
      let members = Members.name_from set (fold X c) in
      update_group g (λ r. record r { standings_digest = Members.standings_digest X set members })
        (record t {
          group_members = at_group g members t.group_members;
          group_standings =
              at_group g (Map.retain (λ peer row. Map.contains peer members) (t.group_standings g))
                t.group_standings;
        })
