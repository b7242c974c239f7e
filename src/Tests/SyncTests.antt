-- ===== src/Tests/SyncTests.antt =====
-- Tests and instances for the sync of groups (crates/ac-groups/src/sync.rs).
use p2parchiver.Common.{ℕ, ◌+◌, ◌≤◌, ◌≡◌, refl, ◌⊎◌, none, [], ◌∷◌, arith, length}
use p2parchiver.Common.Bytes.{bytes_eq}
use p2parchiver.Common.Result.{ok, err}
use p2parchiver.Common.Int.{pos}
use p2parchiver.Common.Keyed
use p2parchiver.Net.AdmittedPeers.{AdmittedPeers, ready}
use p2parchiver.Groups.Sync.Wire.{StoreOps, StoreError, GroupAction}
use p2parchiver.Groups.Sync.Fetches.{fetch, defer, start, drain, pop, max_inflight}
use p2parchiver.Groups.Sync.Heads.{on_heads, on_head, fetch_heads, fetch_groups, silently_omitted}
use p2parchiver.Groups.Sync.Machine.{GroupSync, GroupEvent, on, handle, drain_deferred}
use p2parchiver.Groups.Sync.Bounds.{IsBounded, IsAwaited}
use p2parchiver.Groups.Sync.Steps.{on-IsBounded, on-drains, store_stays}
use p2parchiver.Tests.Toy.{toy}

-- A store that knows no group and counts the answers it is handed.
abbrev blank : StoreOps toy
blank = record {
  Store = ℕ;
  get = λ store group. ok none;
  list = λ store. ok [];
  members = λ store group. ok [];
  log_shared_with = λ store peer. ok [];
  serve = λ store group peer from. ok none;
  my_standing_seq = λ store group. ok none;
  put = λ store group from entries standings at. (store + 1, err (StoreError.unknown_group group));
  adopt = λ store entries standings at. (store + 1, err StoreError.corrupt_row);
  author = λ store key group op at. (store, err (StoreError.unknown_group group));
  author_standing =
      λ store key group position username at. (store, err (StoreError.unknown_group group));
  forget = λ store group. (store, ok tt);
}

abbrev idle : GroupSync toy blank
idle = record {
  store = 0;
  me = 2;
  key = 2;
  username = [];
  episodes = record { inflight = []; deferred = (4, 8 ∷ []) ∷ [] };
  budget = record { per_tick = 8; spent = [] };
  now_at = pos 0;
}

abbrev known_peers : AdmittedPeers
known_peers = (3, ready) ∷ (4, ready) ∷ []

abbrev named : GroupEvent
named =
    GroupEvent.heads 3
      (record { group = 7 ∷ []; head_seq = 2; head_hash = []; standings = [] } ∷ [])

asked :
    (on toy blank idle 5 named known_peers).1
    ≡ GroupAction.fetch 3 (7 ∷ []) 0 ∷ GroupAction.fetch 4 (8 ∷ []) 0 ∷ []
unfolding on handle drain_deferred on_heads on_head fetch_heads fetch_groups silently_omitted fetch
    defer start drain pop Keyed.put Keyed.erase bytes_eq
asked = refl

on-IsBounded_example :
    IsBounded (on toy blank idle 5 named known_peers).0.episodes
    × IsAwaited
        (on toy blank idle 5 named known_peers).0.episodes
        (on toy blank idle 5 named known_peers).1
on-IsBounded_example =
    on-IsBounded toy blank idle 5 named known_peers (omega arith, omega arith, refl)

on-drains_example :
    (max_inflight ≤ length (on toy blank idle 5 named known_peers).0.episodes.inflight)
    ⊎ ((on toy blank idle 5 named known_peers).0.episodes.deferred ≡ [])
on-drains_example = on-drains toy blank idle 5 named known_peers refl

store_stays_example :
    (on toy blank idle 5 (GroupEvent.entries 3 (7 ∷ []) 0 [] []) known_peers).0.store ≡ 0
store_stays_example =
    store_stays toy blank idle 5 (GroupEvent.entries 3 (7 ∷ []) 0 [] []) known_peers refl
