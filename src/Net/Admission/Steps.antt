-- ===== src/Net/Admission/Steps.antt =====
-- What the parts of one step of the admission do to a peer's handshake and to the actions:
-- admission.rs.
use p2parchiver.Common.{
  ◌≡◌, refl, ◌∙◌, ◌⊎◌, inl, inr, Bool, true, false, not, ◌||◌, Option, none, some, List, [], ◌∷◌,
  ◌++◌, arith, ◌==◌, if◌then◌else◌, ==_iff, Bool-cases, Option-cases, any_of,
}
use p2parchiver.Common.Bytes.{Bytes}
use p2parchiver.Common.Map
use p2parchiver.Common.Map.{Map}
use p2parchiver.Platform.{PeerId}
use p2parchiver.Net.Admission.{
  Admission, AdmissionAction, Why, Handshake, admitted, complete, and_then, send_ours, settle,
  close_peer, on_exchange_failed, send_all, close_all, fresh,
}

abbrev pub is_admission : AdmissionAction → Bool
is_admission (admitted peer username) = true
is_admission _ = false

-- No action announces a peer.
abbrev pub IsQuiet : List AdmissionAction → Type 0
IsQuiet acts = any_of is_admission acts ≡ false

-- What a handshake has proved: the verified username, and that the other side accepted ours.
abbrev pub proved : Option Handshake → Option Bytes × Bool
proved none = (none, false)
proved (some h) = (h.username, h.we_passed)

abbrev pub is_announced : Option Handshake → Bool
is_announced none = false
is_announced (some h) = h.announced

-- A peer's handshake proves the same and is announced as before, and the actions announce nobody.
abbrev pub Same : PeerId → Admission → Admission × List AdmissionAction → Type 0
Same p s (s', acts) =
    (s'.server ≡ s.server)
    × (proved (Map.get p s'.peers) ≡ proved (Map.get p s.peers))
    × (is_announced (Map.get p s'.peers) ≡ is_announced (Map.get p s.peers))
    × IsQuiet acts

-- The same, or the handshake is gone.
abbrev pub SameOrGone : PeerId → Admission → Admission × List AdmissionAction → Type 0
SameOrGone p s (s', acts) =
    (s'.server ≡ s.server)
    × (((proved (Map.get p s'.peers) ≡ proved (Map.get p s.peers))
          × (is_announced (Map.get p s'.peers) ≡ is_announced (Map.get p s.peers)))
        ⊎ (Map.get p s'.peers ≡ none))
    × IsQuiet acts

pub any_of-append :
    {A : Type 0} (t : A → Bool) (xs ys : List A)
    → any_of t (xs ++ ys) ≡ (any_of t xs || any_of t ys)
any_of-append t [] ys = refl
any_of-append t (x ∷ xs) ys = ground (arith, any_of-append t xs ys)

pub Same-SameOrGone :
    (p : PeerId) (s : Admission) (r : Admission × List AdmissionAction)
    → Same p s r
    → SameOrGone p s r
Same-SameOrGone p s r (a, b, c, d) = (a, inl (b, c), d)

pub Same-and_then :
    (p : PeerId) (s : Admission) (r : Admission × List AdmissionAction)
    (f : Admission → Admission × List AdmissionAction)
    → Same p s r
    → Same p r.0 (f r.0)
    → Same p s (and_then r f)
Same-and_then p s r f (a, b, c, d) (a', b', c', d') =
    (a' ∙ a, b' ∙ b, c' ∙ c, ground (arith, any_of-append is_admission r.1 (f r.0).1))

-- A peer's handshake stays as it is or is gone, and the actions announce nobody.
abbrev pub KeptOrGone : PeerId → Admission → Admission × List AdmissionAction → Type 0
KeptOrGone p s (s', acts) =
    (s'.server ≡ s.server)
    × ((Map.get p s'.peers ≡ Map.get p s.peers) ⊎ (Map.get p s'.peers ≡ none))
    × IsQuiet acts

KeptOrGone-and_then :
    (p : PeerId) (s : Admission) (r : Admission × List AdmissionAction)
    (f : Admission → Admission × List AdmissionAction)
    → KeptOrGone p s r
    → KeptOrGone p r.0 (f r.0)
    → KeptOrGone p s (and_then r f)
KeptOrGone-and_then p s r f (a, b, d) (a', b', d') =
    (a' ∙ a, ground arith, ground (arith, any_of-append is_admission r.1 (f r.0).1))

pub SameOrGone-and_then :
    (p : PeerId) (s : Admission) (r : Admission × List AdmissionAction)
    (f : Admission → Admission × List AdmissionAction)
    → Same p s r
    → KeptOrGone p r.0 (f r.0)
    → SameOrGone p s (and_then r f)
SameOrGone-and_then p s r f (a, b, c, d) (a', b', d') =
    (a' ∙ a, ground arith, ground (arith, any_of-append is_admission r.1 (f r.0).1))

pub send_ours-Same : (p : PeerId) (s : Admission) (q : PeerId) → Same p s (send_ours s q)
unfolding send_ours
send_ours-Same p s q = elim (Option-cases s.mine) [
  | inl lacking ↦ ground arith
  | inr (mine, held) ↦ elim (Option-cases (Map.get q s.peers)) [
    | inl missing ↦ ground arith
    | inr (h, found) ↦
        ground (arith, Map.get-insert q p (record h { sent = true }) s.peers, ==_iff q p)
  ]
]

pub close_peer-KeptOrGone :
    (p : PeerId) (s : Admission) (q : PeerId) (why : Why) → KeptOrGone p s (close_peer s q why)
unfolding close_peer
close_peer-KeptOrGone p s q why = ground (arith, Map.get-remove q p s.peers)

pub send_all-Same : (p : PeerId) (s : Admission) (qs : List PeerId) → Same p s (send_all s qs)
unfolding send_all
send_all-Same p s [] = (refl, refl, refl, refl)
send_all-Same p s (q ∷ qs) =
    Same-and_then p s (send_ours s q) (λ s'. send_all s' qs) (send_ours-Same p s q)
      (send_all-Same p (send_ours s q).0 qs)

pub close_all-KeptOrGone :
    (p : PeerId) (s : Admission) (qs : List PeerId) → KeptOrGone p s (close_all s qs)
unfolding close_all
close_all-KeptOrGone p s [] = (refl, inl refl, refl)
close_all-KeptOrGone p s (q ∷ qs) =
    KeptOrGone-and_then p s (close_peer s q Why.timed_out) (λ s'. close_all s' qs)
      (close_peer-KeptOrGone p s q Why.timed_out)
      (close_all-KeptOrGone p (close_peer s q Why.timed_out).0 qs)

pub exchange_failed-Same :
    (p : PeerId) (s : Admission) (q : PeerId) → Same p s (on_exchange_failed s q)
unfolding on_exchange_failed
exchange_failed-Same p s q =
    ground (arith, Map.get-modify q p (λ h. record h { sent = false }) s.peers)

-- `settle` does nothing, or announces a peer that was complete and not yet announced.
abbrev pub Settled : Admission → PeerId → PeerId → Type 0
Settled s q p =
    (((settle s q).1 ≡ [])
      × (is_announced (Map.get p (settle s q).0.peers) ≡ is_announced (Map.get p s.peers)))
    ⊎ ((u : Bytes) × ((settle s q).1 ≡ admitted q u ∷ [])
        × (proved (Map.get q s.peers) ≡ (some u, true))
        × (is_announced (Map.get q s.peers) ≡ false)
        × (is_announced (Map.get p (settle s q).0.peers)
            ≡ (if q == p then true else is_announced (Map.get p s.peers))))

pub settle_lem :
    (s : Admission) (q p : PeerId)
    → ((settle s q).0.server ≡ s.server)
      × (proved (Map.get p (settle s q).0.peers) ≡ proved (Map.get p s.peers))
      × Settled s q p
unfolding settle
settle_lem s q p = elim (Option-cases (Map.get q s.peers)) [
  | inl missing ↦ (ground arith, ground arith, inl (ground arith, ground arith))
  | inr (h, found) ↦ elim (Option-cases h.username) [
    | inl unnamed ↦ (ground arith, ground arith, inl (ground arith, ground arith))
    | inr (u, named) ↦ elim (Bool-cases (not (complete h) || h.announced)) [
      | inl done ↦ (ground arith, ground arith, inl (ground arith, ground arith))
      | inr fresh ↦ (
        ground arith,
        ground (arith, Map.get-insert q p (record h { announced = true }) s.peers),
        inr (
          u,
          ground arith,
          ground arith,
          ground arith,
          ground (arith, Map.get-insert q p (record h { announced = true }) s.peers),
        ),
      )
    ]
  ]
]
