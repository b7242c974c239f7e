-- ===== src/Net/Budget.antt =====
-- crates/ac-net/src/budget.rs: how many requests of one peer are answered between two ticks.
use p2parchiver.Common.{
  ℕ, ◌+◌, ◌-◌, ◌≤◌, min, ◌≡◌, Bool, true, false, not, ◌&&◌, Option, none, some, List, [], ◌∷◌,
  arith, leb, ◌==◌, if◌then◌else◌, ==_iff,
}
use p2parchiver.Common.Map
use p2parchiver.Common.Map.{Map}
use p2parchiver.Platform.{PeerId}

pub record TickBudget : Type 0 where
  pub per_tick : ℕ
  pub spent : Map ℕ

-- `TickBudget::new`
abbrev pub new : ℕ → TickBudget
new per_tick = record { per_tick = per_tick; spent = [] }

-- `entry(peer).or_insert(0)`
abbrev pub spent_of : Option ℕ → ℕ
spent_of none = 0
spent_of (some n) = n

-- `TickBudget::spend`: a refusal leaves the entry that it made.
unfoldable pub spend : TickBudget → PeerId → TickBudget × Bool
spend b peer =
    let n = spent_of (Map.get peer b.spent) in
    if leb b.per_tick n
    then (record b { spent = Map.insert peer n b.spent }, false)
    else (record b { spent = Map.insert peer (n + 1) b.spent }, true)

-- `TickBudget::reset`
abbrev pub reset : TickBudget → TickBudget
reset b = record b { spent = [] }

-- The requests of some peers in turn: how many of one peer's were answered.
unfoldable pub granted : PeerId → TickBudget → List PeerId → ℕ
granted p b [] = 0
granted p b (q ∷ qs) =
    let (b', answered) = spend b q in (if q == p && answered then 1 else 0) + granted p b' qs

abbrev pub requests_of : PeerId → List PeerId → ℕ
requests_of p [] = 0
requests_of p (q ∷ qs) = (if q == p then 1 else 0) + requests_of p qs

spend-spent :
    (b : TickBudget) (q p : PeerId)
    → ((spend b q).0.per_tick ≡ b.per_tick)
      × (spent_of (Map.get p (spend b q).0.spent)
          ≡ spent_of (Map.get p b.spent) + (if q == p && (spend b q).1 then 1 else 0))
      × ((spend b q).1 ≡ not (leb b.per_tick (spent_of (Map.get q b.spent))))
unfolding spend
spend-spent b q p =
    let n = spent_of (Map.get q b.spent) in
    ground (arith, Map.get-insert q p n b.spent, Map.get-insert q p (n + 1) b.spent, ==_iff q p)

granted-left :
    (p : PeerId) (b : TickBudget) (qs : List PeerId)
    → spent_of (Map.get p b.spent) ≤ b.per_tick
    → granted p b qs ≡ min (requests_of p qs) (b.per_tick - spent_of (Map.get p b.spent))
unfolding granted
granted-left p b [] h = omega arith
granted-left p b (q ∷ qs) h =
    ground (arith, spend-spent b q p, granted-left p (spend b q).0 qs, ==_iff q p)

-- After a reset, of any sequence of requests by any peers, each peer has exactly its first
-- `per_tick` answered.
pub granted-reset :
    (p : PeerId) (b : TickBudget) (qs : List PeerId)
    → granted p (reset b) qs ≡ min (requests_of p qs) b.per_tick
granted-reset p b qs = omega (arith, granted-left p (reset b) qs (omega arith))
