-- ===== src/Tests/StoreTests.antt =====
-- Tests and instances for the group store (crates/ac-groups/src/store.rs), alone and under the sync.
use p2parchiver.Common.{◌≡◌, refl, true, false, some, [], ◌∷◌, arith}
use p2parchiver.Common.Bytes.{bytes_eq}
use p2parchiver.Common.Map
use p2parchiver.Common.Map.{Map}
use p2parchiver.Common.Result.{ok, err}
use p2parchiver.Common.Int.{pos}
use p2parchiver.Common.Keyed
use p2parchiver.Net.Identity.{public_key_of}
use p2parchiver.Net.AdmittedPeers.{ready}
use p2parchiver.Groups.Members
use p2parchiver.Groups.Chain.{
  Chain, load, extend, stage, check_next, check_genesis, check_op, check_name, verify_signature,
  fold, entries,
}
use p2parchiver.Groups.Sync.Wire.{GroupRow, Served, StoreError}
use p2parchiver.Groups.Sync.Machine.{GroupSync, GroupEvent, on}
use p2parchiver.Groups.Store.Tables
use p2parchiver.Groups.Store.Tables.{Tables}
use p2parchiver.Groups.Store.Reads.{chain, serve}
use p2parchiver.Groups.Store.Writes.{
  adopt, put, put_from, insert_pending, insert_group, finish_put, put_checked, diverges,
}
use p2parchiver.Groups.Store.Intake.{take_standings}
use p2parchiver.Groups.Store.Coherent.{IsCoherent}
use p2parchiver.Groups.Store.Frame.{no_rows, no_rows-IsCoherent}
use p2parchiver.Groups.Store.Adopt.{adopt-IsCoherent}
use p2parchiver.Groups.Store.Composed.{groups, sync-IsCoherent}
use p2parchiver.Groups.Store.CatchUp.{CaughtUp}
use p2parchiver.Groups.Store.Exchange.{fetch_catches_up, fetch_joins}
use p2parchiver.Groups.Store.Refusals.{Refused, put-Refused}
use p2parchiver.Groups.Store.Ledger.{Learned, view}
use p2parchiver.Groups.Store.Refines.{sync_refines_ledger}
use p2parchiver.Tests.Toy.{toy, entry_cbor, standing_cbor}
use p2parchiver.Tests.ChainTests.{sealed, checked, founding, admission, family_id, two}

abbrev one : Chain
one = record { id = family_id; admin = 7; entries = checked founding ∷ [] }

-- The tables of node 7, which holds both entries, and those of node 9, which holds the first.
abbrev rows_of_7 : Tables
rows_of_7 = (adopt toy entry_cbor standing_cbor 7 no_rows (entries two) [] (pos 10)).0

abbrev rows_of_9 : Tables
rows_of_9 = (adopt toy entry_cbor standing_cbor 9 no_rows (entries one) [] (pos 10)).0

rows_of_7-IsCoherent : IsCoherent toy entry_cbor standing_cbor rows_of_7
rows_of_7-IsCoherent =
    adopt-IsCoherent toy entry_cbor standing_cbor 7 no_rows (entries two) [] (pos 10)
      (no_rows-IsCoherent toy entry_cbor standing_cbor)

rows_of_9-IsCoherent : IsCoherent toy entry_cbor standing_cbor rows_of_9
rows_of_9-IsCoherent =
    adopt-IsCoherent toy entry_cbor standing_cbor 9 no_rows (entries one) [] (pos 10)
      (no_rows-IsCoherent toy entry_cbor standing_cbor)

-- The row that node 7 has, and the one that node 9 has.
-- The row that node 7 has, and the one that node 9 has.
known_7 : (r : GroupRow) × (Tables.get rows_of_7 family_id ≡ some r)
unfolding adopt insert_pending insert_group load extend stage check_genesis check_next check_name
    verify_signature check_op public_key_of bytes_eq fold Members.insert Map.insert Keyed.put
    Keyed.erase Keyed.modify Tables.set_head Tables.write_entries Tables.rebuild_caches finish_put
    put_checked diverges take_standings chain Tables.insert_entries Members.name_from Map.retain
known_7 = (_, refl)

known_9 : (r : GroupRow) × (Tables.get rows_of_9 family_id ≡ some r)
unfolding adopt insert_pending insert_group load extend stage check_genesis check_next check_name
    verify_signature check_op public_key_of bytes_eq fold Members.insert Map.insert Keyed.put
    Keyed.erase Keyed.modify Tables.set_head Tables.write_entries Tables.rebuild_caches finish_put
    put_checked diverges take_standings chain Tables.insert_entries Members.name_from Map.retain
known_9 = (_, refl)

holds_two : chain toy entry_cbor rows_of_7 family_id ≡ ok two
unfolding adopt insert_pending insert_group load extend stage check_genesis check_next check_name
    verify_signature check_op public_key_of bytes_eq fold Members.insert Map.insert Keyed.put
    Keyed.erase Keyed.modify Tables.set_head Tables.write_entries Tables.rebuild_caches finish_put
    put_checked diverges take_standings chain Tables.insert_entries Members.name_from Map.retain
holds_two = refl

holds_one : chain toy entry_cbor rows_of_9 family_id ≡ ok one
unfolding adopt insert_pending insert_group load extend stage check_genesis check_next check_name
    verify_signature check_op public_key_of bytes_eq fold Members.insert Map.insert Keyed.put
    Keyed.erase Keyed.modify Tables.set_head Tables.write_entries Tables.rebuild_caches finish_put
    put_checked diverges take_standings chain Tables.insert_entries Members.name_from Map.retain
holds_one = refl

member_7 : Members.contains (fold toy two) 7 ≡ true
unfolding fold Members.insert Map.insert
member_7 = refl

member_9 : Members.contains (fold toy two) 9 ≡ true
unfolding fold Members.insert Map.insert
member_9 = refl

fetch_catches_up_example :
    (served : Served) × (serve toy entry_cbor 7 rows_of_7 family_id 9 1 ≡ ok (some served))
    × CaughtUp toy entry_cbor standing_cbor 9
        (put toy entry_cbor standing_cbor 9 rows_of_9 family_id 1 served.entries served.standings
          (pos 11))
        family_id
        two
        1
fetch_catches_up_example =
    fetch_catches_up toy entry_cbor standing_cbor 7 9 rows_of_7 rows_of_9 family_id known_7.0
      known_9.0 one two (sealed admission ∷ []) 1 (pos 11) rows_of_7-IsCoherent rows_of_9-IsCoherent
      known_7.1 known_9.1 holds_two holds_one refl (omega arith) member_7 member_9

fetch_joins_example :
    (served : Served) × (serve toy entry_cbor 7 rows_of_7 family_id 9 0 ≡ ok (some served))
    × CaughtUp toy entry_cbor standing_cbor 9
        (adopt toy entry_cbor standing_cbor 9 no_rows served.entries served.standings (pos 11))
        family_id
        two
        2
fetch_joins_example =
    fetch_joins toy entry_cbor standing_cbor 7 9 rows_of_7 no_rows family_id known_7.0 two (pos 11)
      rows_of_7-IsCoherent (no_rows-IsCoherent toy entry_cbor standing_cbor) known_7.1 refl
      holds_two member_7 member_9

beyond_end :
    (put toy entry_cbor standing_cbor 9 rows_of_9 family_id 5 [] [] (pos 11)).1
    ≡ err (StoreError.gap 1 5)
unfolding adopt insert_pending insert_group load extend stage check_genesis check_next check_name
    verify_signature check_op public_key_of bytes_eq fold Members.insert Map.insert Keyed.put
    Keyed.erase Keyed.modify Tables.set_head Tables.write_entries Tables.rebuild_caches finish_put
    put_checked diverges take_standings chain Tables.insert_entries Members.name_from Map.retain
beyond_end = refl

put-Refused_example :
    ((put toy entry_cbor standing_cbor 9 rows_of_9 family_id 5 [] [] (pos 11)).0 ≡ rows_of_9)
    × Refused toy entry_cbor standing_cbor 9 rows_of_9 family_id 5 [] (StoreError.gap 1 5)
put-Refused_example =
    put-Refused toy entry_cbor standing_cbor 9 rows_of_9 family_id 5 [] [] (pos 11)
      (StoreError.gap 1 5) rows_of_9-IsCoherent beyond_end

-- Node 9 waits for the entries from the second on.
abbrev waiting : GroupSync toy (groups toy entry_cbor standing_cbor 9)
waiting = record {
  store = rows_of_9;
  me = 9;
  key = 9;
  username = [];
  episodes = record {
    inflight = (family_id, record { peer = 7; from = 1; deadline = 90 }) ∷ [];
    deferred = [];
  };
  budget = record { per_tick = 8; spent = [] };
  now_at = pos 11;
}

sync-IsCoherent_example :
    IsCoherent toy entry_cbor standing_cbor
      (on toy
        (groups toy entry_cbor standing_cbor 9)
        waiting
        5
        (GroupEvent.entries 7 family_id 1 (sealed admission ∷ []) [])
        ((7, ready) ∷ [])).0.store
sync-IsCoherent_example =
    sync-IsCoherent toy entry_cbor standing_cbor 9 waiting 5
      (GroupEvent.entries 7 family_id 1 (sealed admission ∷ []) []) ((7, ready) ∷ [])
      rows_of_9-IsCoherent

-- An answer without a new entry takes no head to compare: the members are then rebuilt from the stale
-- chain, and miss the peer that the stored chain admits.
stale_members :
    Members.contains
      ((put_from toy entry_cbor standing_cbor 9 rows_of_9 rows_of_7 family_id 1 [] []
          (pos 11)).0.group_members
        family_id)
      9
    ≡ false
unfolding adopt insert_pending insert_group load extend stage check_genesis check_next check_name
    verify_signature check_op public_key_of bytes_eq fold Members.insert Map.insert Keyed.put
    Keyed.erase Keyed.modify Tables.set_head Tables.write_entries Tables.rebuild_caches finish_put
    put_checked diverges take_standings chain Tables.insert_entries Members.name_from Map.retain
stale_members = refl

sync_refines_ledger_example : Learned toy entry_cbor (view toy entry_cbor rows_of_9 family_id) (
    view toy entry_cbor
      (on toy
        (groups toy entry_cbor standing_cbor 9)
        waiting
        5
        (GroupEvent.entries 7 family_id 1 (sealed admission ∷ []) [])
        ((7, ready) ∷ [])).0.store
      family_id)
sync_refines_ledger_example =
    sync_refines_ledger toy entry_cbor standing_cbor 9 waiting 5
      (GroupEvent.entries 7 family_id 1 (sealed admission ∷ []) []) ((7, ready) ∷ []) family_id
      rows_of_9-IsCoherent
