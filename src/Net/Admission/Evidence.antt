-- ===== src/Net/Admission/Evidence.antt =====
-- What every step of the admission does to the evidence about one peer: admission.rs.
use p2parchiver.Common.{
  ◌≡◌, refl, sym, ap, ◌∙◌, subst, ◌⊎◌, inl, inr, Bool, true, false, some, List, [], ◌++◌, arith,
  ==_iff, Option-cases,
}
use p2parchiver.Common.Bytes.{Bytes}
use p2parchiver.Common.Map
use p2parchiver.Common.Map.{Map}
use p2parchiver.Common.Result.{ok, Result-cases}
use p2parchiver.Common.Int.{ℤ}
use p2parchiver.Platform.{Platform, PeerId, Cbor}
use p2parchiver.Net.Attest
use p2parchiver.Net.Attest.{Attestation, Statement}
use p2parchiver.Net.Admission.{
  answer, Admission, AdmissionAction, AdmissionEvent, Renewal, Why, Handshake, Instant, and_then,
  send_ours, settle, on_connected, on_exchange_failed, peers_where, unsent, overdue, send_waiting,
  close_overdue, ask_renewal, on_tick, on_renewed, on, on_request, verdict, begun, judged, named,
}
use p2parchiver.Net.Admission.Steps.{
  Settled, IsQuiet, proved, is_announced, Same, SameOrGone, Same-SameOrGone, Same-and_then,
  SameOrGone-and_then, send_ours-Same, close_peer-KeptOrGone, send_all-Same, close_all-KeptOrGone,
  exchange_failed-Same, settle_lem,
}
use p2parchiver.Net.Admission.Trace.{
  Input, event, request, named_by, passed, Accepts, Emits, IsQuiet-silent, IsQuiet-times,
  Emits-append, times_admitted-append, Emits-one, Presents, step, StepFacts,
}

module _ (X : Platform) (cbor : Cbor Statement) where
  renewed-Same :
      (p : PeerId) (s : Admission) (renewal : Renewal) (at : ℤ)
      → Same p s (on_renewed X cbor s renewal at)
  unfolding on_renewed send_waiting
  renewed-Same p s (Renewal.issued a) at = elim (Option-cases s.server) [
    | inl alone ↦ ground arith
    | inr (server, enrolled) ↦ elim (Result-cases (Attest.verify X cbor a s.me server at)) [
      | inl (e, refused) ↦ ground arith
      | inr (statement, genuine) ↦ ground (
        arith,
        send_all-Same p (record s { renewing = false; mine = some a }) (peers_where unsent s.peers),
      )
    ]
  ]
  renewed-Same p s (Renewal.refused reason) at = ground arith
  renewed-Same p s (Renewal.failed error) at = ground arith

  ask_renewal-Same :
      (p : PeerId) (s : Admission) (at : ℤ) (server_connected : Bool)
      → Same p s (ask_renewal X cbor s at server_connected)
  unfolding ask_renewal
  ask_renewal-Same p s at server_connected = ground arith

  tick-SameOrGone :
      (p : PeerId) (s : Admission) (now : Instant) (at : ℤ) (server_connected : Bool)
      → SameOrGone p s (on_tick X cbor s now at server_connected)
  unfolding on_tick send_waiting close_overdue
  tick-SameOrGone p s now at server_connected =
      let asked = ask_renewal X cbor s at server_connected in
      let waiting = send_waiting asked.0 in
      SameOrGone-and_then p s (and_then asked send_waiting) (λ s'. close_overdue s' now)
        (Same-and_then p s asked send_waiting (ask_renewal-Same p s at server_connected)
          (send_all-Same p asked.0 (peers_where unsent asked.0.peers)))
        (close_all-KeptOrGone p waiting.0 (peers_where (overdue now) waiting.0.peers))

  connected-SameOrGone :
      (p : PeerId) (s : Admission) (q : PeerId) (now : Instant)
      → SameOrGone p s (on_connected s q now)
  unfolding on_connected
  connected-SameOrGone p s q now = elim (Option-cases s.server) [
    | inl alone ↦ ground (arith, close_peer-KeptOrGone p s q Why.not_enrolled)
    | inr (server, enrolled) ↦
        let s' : Admission = record s {
          peers = Map.insert q (begun now (Map.get q s.peers)) s.peers;
        } in
        ground (
          arith,
          send_ours-Same p s' q,
          Map.get-insert q p (begun now (Map.get q s.peers)) s.peers,
          ==_iff q p,
        )
  ]

  SameOrGone-facts :
      (p : PeerId) (s : Admission) (i : Input) (r : Admission × List AdmissionAction)
      → SameOrGone p s r
      → StepFacts X cbor p s i r
  unfolding StepFacts
  SameOrGone-facts p s i r (a, same, quiet) = (
    a,
    λ u h. ground arith,
    λ h. ground arith,
    λ u e. absurd (IsQuiet-silent p u r.1 quiet e),
    ground (arith, IsQuiet-times p r.1 quiet),
  )

  settle-Emits :
      (p : PeerId) (s : Admission) (q : PeerId) (u : Bytes)
      → Settled s q p
      → proved (Map.get p (settle s q).0.peers) ≡ proved (Map.get p s.peers)
      → Emits p u (settle s q).1
      → (named_by (Map.get p (settle s q).0.peers) ≡ some u)
        × (passed (Map.get p (settle s q).0.peers) ≡ true)
  settle-Emits p s q u (inl (silent, same)) evidence e =
      elim (subst (λ acts. Emits p u acts) silent e) [ ]
  settle-Emits p s q u (inr (v, said, complete', fresh', done)) evidence e =
      let (same_peer, same_name) = Emits-one p q u v (subst (λ acts. Emits p u acts) said e) in
      let (named', passed') : (named_by (Map.get q s.peers) ≡ some v)
          × (passed (Map.get q s.peers) ≡ true) =
        (ap (λ x. x.0) complete', ap (λ x. x.1) complete') in
      (ground (arith, evidence), ground (arith, evidence))

  -- A step that ends in `settle`, after actions that announce nobody.
  settle-facts :
      (p : PeerId) (s : Admission) (i : Input) (q : PeerId) (s1 : Admission)
      (acts : List AdmissionAction)
      → s1.server ≡ s.server
      → ((u : Bytes)
          → named_by (Map.get p s1.peers) ≡ some u
          → (named_by (Map.get p s.peers) ≡ some u) ⊎ Presents X cbor s.server p u i)
      → (passed (Map.get p s1.peers) ≡ true → (passed (Map.get p s.peers) ≡ true) ⊎ Accepts p i)
      → is_announced (Map.get p s1.peers) ≡ is_announced (Map.get p s.peers)
      → IsQuiet acts
      → StepFacts X cbor p s i ((settle s1 q).0, acts ++ (settle s1 q).1)
  unfolding StepFacts
  settle-facts p s i q s1 acts served named' passed' as_before quiet =
      let (served', evidence, outcome) = settle_lem s1 q p in
      (
        served' ∙ served,
        λ u h. named' u (ap (λ x. x.0) (sym evidence) ∙ h),
        λ h. passed' (ap (λ x. x.1) (sym evidence) ∙ h),
        λ u e.
            settle-Emits p s1 q u outcome evidence (Emits-append p u acts (settle s1 q).1 quiet e),
        inl (
            ground (
              arith,
              times_admitted-append p acts (settle s1 q).1,
              IsQuiet-times p acts quiet,
              outcome,
              as_before,
            )),
      )

  named-facts :
      (p : PeerId) (s : Admission) (q : PeerId) (a : Attestation) (now : Instant) (at : ℤ)
      (u : Bytes)
      → judged X cbor a q at s.server ≡ ok u
      → StepFacts X cbor p s (request q a now at) (answer X cbor s q now (ok u)).1
  named-facts p s q a now at u genuine =
      let h : Handshake = named X cbor now u (Map.get q s.peers) in
      let s1 : Admission = record s { peers = Map.insert q h s.peers } in
      let read = Map.get-insert q p h s.peers in
      let (served, evidence, as_before, quiet) = send_ours-Same p s1 q in
      settle-facts p s (request q a now at) q (send_ours s1 q).0 (send_ours s1 q).1 served
        (λ v e. ground (arith, read, evidence, genuine, ==_iff q p))
        (λ e. ground (arith, read, evidence, ==_iff q p))
        (ground (arith, read, as_before, ==_iff q p)) quiet

  accepted-facts :
      (p : PeerId) (s : Admission) (q : PeerId)
      → StepFacts X cbor p s
          (event (AdmissionEvent.accepted q))
          (on X cbor s (AdmissionEvent.accepted q))
  unfolding on
  accepted-facts p s q =
      let read = Map.get-modify q p (λ h. record h { we_passed = true }) s.peers in
      settle-facts p s (event (AdmissionEvent.accepted q)) q
        (record s { peers = Map.modify q (λ h. record h { we_passed = true }) s.peers }) [] refl
        (λ u h. ground (arith, read)) (λ h. ground (arith, read)) (ground (arith, read)) refl

  request-facts :
      (p : PeerId) (s : Admission) (q : PeerId) (a : Attestation) (now : Instant) (at : ℤ)
      → StepFacts X cbor p s (request q a now at) (on_request X cbor s q a now at).1
  unfolding on_request verdict
  request-facts p s q a now at = elim (Result-cases (judged X cbor a q at s.server)) [
    | inl (why, refused) ↦
        SameOrGone-facts p s (request q a now at) (on_request X cbor s q a now at).1
          (ground (arith, close_peer-KeptOrGone p s q why))
    | inr (u, genuine) ↦
        subst (λ r. StepFacts X cbor p s (request q a now at) (answer X cbor s q now r).1)
          (sym genuine) (named-facts p s q a now at u genuine)
  ]

  pub step-facts :
      (p : PeerId) (s : Admission) (i : Input) → StepFacts X cbor p s i (step X cbor s i)
  unfolding step on
  step-facts p s (request q a now at) = request-facts p s q a now at
  step-facts p s (event (AdmissionEvent.accepted q)) = accepted-facts p s q
  step-facts p s (event (AdmissionEvent.connected q now)) =
      SameOrGone-facts p s (event (AdmissionEvent.connected q now)) _
        (connected-SameOrGone p s q now)
  step-facts p s (event (AdmissionEvent.disconnected q still_connected)) =
      SameOrGone-facts p s (event (AdmissionEvent.disconnected q still_connected)) _
        (ground (arith, Map.get-remove q p s.peers))
  step-facts p s (event (AdmissionEvent.rejected q why)) =
      SameOrGone-facts p s (event (AdmissionEvent.rejected q why)) _
        (ground (arith, close_peer-KeptOrGone p s q (Why.they_rejected why)))
  step-facts p s (event (AdmissionEvent.exchange_failed q)) =
      SameOrGone-facts p s (event (AdmissionEvent.exchange_failed q)) (on_exchange_failed s q)
        (Same-SameOrGone p s (on_exchange_failed s q) (exchange_failed-Same p s q))
  step-facts p s (event (AdmissionEvent.renewed renewal at)) =
      SameOrGone-facts p s (event (AdmissionEvent.renewed renewal at))
        (on_renewed X cbor s renewal at)
        (Same-SameOrGone p s (on_renewed X cbor s renewal at) (renewed-Same p s renewal at))
  step-facts p s (event (AdmissionEvent.tick now at server_connected)) =
      SameOrGone-facts p s (event (AdmissionEvent.tick now at server_connected)) _
        (tick-SameOrGone p s now at server_connected)
