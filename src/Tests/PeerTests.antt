-- ===== src/Tests/PeerTests.antt =====
-- Tests and instances for connections, readiness and budgets (crates/ac-net/src/connectivity.rs,
-- admitted_peers.rs, budget.rs).
use p2parchiver.Common.{
  ◌*◌, min, ◌≡◌, refl, true, false, ◌&&◌, ◌||◌, none, some, List, [], ◌∷◌, arith, if◌then◌else◌,
}
use p2parchiver.Common.Map
use p2parchiver.Common.Map.{Map}
use p2parchiver.Net.Admission.{Instant}
use p2parchiver.Net.Budget.{TickBudget, reset, granted, requests_of, granted-reset, spend}
use p2parchiver.Net.Connectivity.{
  Connectivity, Reason, upgrade_pending, relayed, direct, expire_upgrades, is_settled, state_of,
  effective_state,
}
use p2parchiver.Net.Connectivity.Laws.{
  IsSound, Operation, connect, punch, disconnect, apply_all, apply_all-IsSound, expire_upgrades_lem,
  entry_ran_out,
}
use p2parchiver.Net.AdmittedPeers.{
  AdmittedPeers, settling, promote, is_ready, is_admitted, times, promote_lem,
}

abbrev two_a_tick : TickBudget
two_a_tick = record { per_tick = 2; spent = (3, 2) ∷ [] }

granted-reset_example :
    granted 3 (reset two_a_tick) (3 ∷ 4 ∷ 3 ∷ 3 ∷ []) ≡ min (requests_of 3 (3 ∷ 4 ∷ 3 ∷ 3 ∷ [])) 2
granted-reset_example = granted-reset 3 two_a_tick (3 ∷ 4 ∷ 3 ∷ 3 ∷ [])

two_answered : granted 3 (reset two_a_tick) (3 ∷ 4 ∷ 3 ∷ 3 ∷ []) ≡ 2
unfolding granted spend Map.insert
two_answered = refl

-- Peer 3 is connected through the relay since 5, peer 4 directly.
abbrev pair : Connectivity
pair =
    (
      3,
      record {
        state = upgrade_pending;
        since = 5;
        reason = Reason.relayed_established;
        attempts = 0;
        relayed_since = some 5;
      },
    )
    ∷ (
      4,
      record {
        state = direct;
        since = 6;
        reason = Reason.direct_established;
        attempts = 0;
        relayed_since = none;
      },
    )
    ∷ []

abbrev much_later : Instant
much_later = 16 * 1000000000

abbrev events : List (Instant × Operation)
events =
    (5, connect 3 true) ∷ (6, connect 4 false) ∷ (9, punch 3 false) ∷ (10, disconnect 3 false) ∷ []

apply_all-IsSound_example : IsSound (apply_all events [])
apply_all-IsSound_example = apply_all-IsSound events [] (λ p. refl)

expire_upgrades_lem_example :
    (state_of (expire_upgrades much_later pair).0 3
      ≡ (if entry_ran_out much_later (Map.get 3 pair) then relayed else state_of pair 3))
    × (entry_ran_out much_later (Map.get 3 (expire_upgrades much_later pair).0) ≡ false)
    × (is_settled much_later (expire_upgrades much_later pair).0 3 ≡ is_settled much_later pair 3)
expire_upgrades_lem_example = expire_upgrades_lem much_later pair 3

moved : (expire_upgrades much_later pair).1 ≡ 3 ∷ []
unfolding expire_upgrades
moved = refl

abbrev waiting : AdmittedPeers
waiting = (3, settling) ∷ (4, settling) ∷ []

promote_lem_example :
    (is_ready (promote 10 pair waiting).0 4
      ≡ (is_ready waiting 4 || (is_admitted waiting 4 && is_settled 10 pair 4)))
    × (is_admitted (promote 10 pair waiting).0 4 ≡ is_admitted waiting 4)
    × (times 4 (promote 10 pair waiting).1 ≡ (
        if is_ready waiting 4 then 0 else if is_ready (promote 10 pair waiting).0 4 then 1 else 0))
promote_lem_example = promote_lem 10 pair waiting 4 ((omega arith, tt), (tt, tt))

promoted : (promote 10 pair waiting).1 ≡ 4 ∷ []
unfolding promote is_settled effective_state
promoted = refl
