-- ===== src/Net/Admission/Runs.antt =====
-- Runs of the admission: who is announced, and how often. admission.rs.
use p2parchiver.Common.{
  ◌+◌, ◌≤◌, ◌≡◌, sym, subst, inl, inr, true, Option, none, some, List, [], ◌∷◌, arith, is_some,
}
use p2parchiver.Common.Bytes.{Bytes}
use p2parchiver.Common.Map
use p2parchiver.Common.Map.{Map}
use p2parchiver.Common.Int.{ℤ}
use p2parchiver.Platform.{Platform, PeerId, Cbor}
use p2parchiver.Net.Attest.{Attestation, Statement}
use p2parchiver.Net.Admission.{Admission, AdmissionAction, and_then, load}
use p2parchiver.Net.Admission.Steps.{is_announced}
use p2parchiver.Net.Admission.Trace.{
  Input, named_by, passed, Any, Accepts, Emits, times_admitted, one_if, times_admitted-append,
  Presents, step, StepFacts,
}
use p2parchiver.Net.Admission.Evidence.{step-facts}

module _ (X : Platform) (cbor : Cbor Statement) where
  -- The states that the machine reaches after some inputs, the newest first.
  pub data Reached : List Input → Admission → Type 0 where
    loaded :
        (stored : Option Attestation) (me : PeerId) (server : Option PeerId) (at : ℤ)
        → Reached [] (load X cbor stored me server at)
    stepped :
        (past : List Input) (s : Admission) (i : Input)
        → Reached past s
        → Reached (i ∷ past) (step X cbor s i).0

  -- What a handshake proves came in with some input.
  abbrev pub IsEarned : List Input → Admission → PeerId → Type 0
  IsEarned past s p =
      ((u : Bytes)
        → named_by (Map.get p s.peers) ≡ some u
        → Any (Presents X cbor s.server p u) past)
      × (passed (Map.get p s.peers) ≡ true → Any (Accepts p) past)

  step-IsEarned :
      (past : List Input) (s : Admission) (i : Input) (p : PeerId)
      → IsEarned past s p
      → IsEarned (i ∷ past) (step X cbor s i).0 p
  unfolding StepFacts
  step-IsEarned past s i p (named_before, passed_before) =
      let (served, named_now, passed_now, emits, counted) = step-facts X cbor p s i in
      (
        λ u h.
            subst (λ server. Any (Presents X cbor server p u) (i ∷ past)) (sym served)
              (elim (named_now u h) [ inl old ↦ inr (named_before u old) | inr now ↦ inl now ]),
        λ h. elim (passed_now h) [ inl old ↦ inr (passed_before old) | inr now ↦ inl now ],
      )

  Reached-IsEarned :
      (past : List Input) (s : Admission) → Reached past s → (p : PeerId) → IsEarned past s p
  unfolding load
  Reached-IsEarned _ _ (loaded stored me none at) p = (λ u h. ground arith, λ h. ground arith)
  Reached-IsEarned _ _ (loaded stored me (some server) at) p =
      (λ u h. ground arith, λ h. ground arith)
  Reached-IsEarned _ _ (stepped past s i reached) p =
      step-IsEarned past s i p (Reached-IsEarned past s reached p)

  -- A peer is announced with a username only after it presented an attestation that verified for it
  -- and this node's server with that username, and after it accepted ours.
  pub admitted_earned :
      (past : List Input) (s : Admission) (i : Input) (p : PeerId) (u : Bytes)
      → Reached past s
      → Emits p u (step X cbor s i).1
      → Any (Presents X cbor s.server p u) (i ∷ past) × Any (Accepts p) (i ∷ past)
  unfolding StepFacts
  admitted_earned past s i p u reached emitted =
      let (served, named_now, passed_now, emits, counted) = step-facts X cbor p s i in
      let (named', passed') = emits u emitted in
      let (by_name, by_pass) = step-IsEarned past s i p (Reached-IsEarned past s reached p) in
      (
        subst (λ server. Any (Presents X cbor server p u) (i ∷ past)) served (by_name u named'),
        by_pass passed',
      )

  -- The inputs in turn, the oldest first.
  unfoldable pub run : Admission → List Input → Admission × List AdmissionAction
  run s [] = (s, [])
  run s (i ∷ rest) = and_then (step X cbor s i) (λ s'. run s' rest)

  -- The peer has a handshake after every input.
  abbrev pub Stays : PeerId → Admission → List Input → Type 0
  Stays p s [] = Unit {0}
  Stays p s (i ∷ rest) =
      (is_some (Map.get p (step X cbor s i).0.peers) ≡ true) × Stays p (step X cbor s i).0 rest

  run-times :
      (p : PeerId) (s : Admission) (inputs : List Input)
      → Stays p s inputs
      → times_admitted p (run s inputs).1 + one_if (is_announced (Map.get p s.peers))
        ≡ one_if (is_announced (Map.get p (run s inputs).0.peers))
  unfolding run StepFacts
  run-times p s [] stays = omega arith
  run-times p s (i ∷ rest) stays =
      let (served, named_now, passed_now, emits, counted) = step-facts X cbor p s i in
      ground (
        arith,
        counted,
        run-times p (step X cbor s i).0 rest stays.1,
        times_admitted-append p (step X cbor s i).1 (run (step X cbor s i).0 rest).1,
      )

  -- While the machine keeps a peer's handshake it announces the peer at most once, and never again
  -- once it was announced.
  pub admitted_once :
      (p : PeerId) (s : Admission) (inputs : List Input)
      → Stays p s inputs
      → times_admitted p (run s inputs).1 + one_if (is_announced (Map.get p s.peers)) ≤ 1
  admitted_once p s inputs stays = ground (arith, run-times p s inputs stays)
