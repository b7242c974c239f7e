-- ===== src/Net/Admission/Closing.antt =====
-- The connection to the server under the admission: admission.rs.
use p2parchiver.Common.{
  ◌≡◌, refl, ◌∙◌, inl, inr, Bool, true, false, some, List, [], ◌∷◌, arith, ◌==◌, any_of,
}
use p2parchiver.Common.Map
use p2parchiver.Common.Map.{Map}
use p2parchiver.Common.Result.{Result-cases}
use p2parchiver.Common.Int.{ℤ}
use p2parchiver.Platform.{Platform, PeerId, Cbor}
use p2parchiver.Net.Attest.{Attestation, Statement}
use p2parchiver.Net.Admission.{
  Admission, AdmissionAction, AdmissionEvent, Renewal, Why, Instant, close, and_then, send_ours,
  settle, close_peer, on_connected, on_exchange_failed, send_all, close_all, peers_where, unsent,
  overdue, send_waiting, close_overdue, ask_renewal, on_tick, on_renewed, on, on_request, verdict,
  begun, named,
}
use p2parchiver.Net.Admission.Steps.{any_of-append}
use p2parchiver.Net.Admission.Trace.{Input, event, request, step}

abbrev pub is_close_of : PeerId → AdmissionAction → Bool
is_close_of p (close q why) = q == p
is_close_of p _ = false

abbrev pub closes : PeerId → List AdmissionAction → Bool
closes p acts = any_of (is_close_of p) acts

-- The server stays the same, and is not closed.
abbrev Spares : PeerId → Admission → Admission × List AdmissionAction → Type 0
Spares p s (s', acts) = (s'.server ≡ s.server) × (closes p acts ≡ false)

Spares-and_then :
    (p : PeerId) (s : Admission) (r : Admission × List AdmissionAction)
    (f : Admission → Admission × List AdmissionAction)
    → Spares p s r
    → Spares p r.0 (f r.0)
    → Spares p s (and_then r f)
Spares-and_then p s r f (a, b) (a', b') =
    (a' ∙ a, ground (arith, any_of-append (is_close_of p) r.1 (f r.0).1))

send_ours-Spares : (p : PeerId) (s : Admission) (q : PeerId) → Spares p s (send_ours s q)
unfolding send_ours
send_ours-Spares p s q = ground arith

settle-Spares : (p : PeerId) (s : Admission) (q : PeerId) → Spares p s (settle s q)
unfolding settle
settle-Spares p s q = ground arith

close_peer-Spares :
    (p : PeerId) (s : Admission) (q : PeerId) (why : Why)
    → s.server ≡ some p
    → Spares p s (close_peer s q why)
unfolding close_peer
close_peer-Spares p s q why h = ground arith

send_all-Spares : (p : PeerId) (s : Admission) (qs : List PeerId) → Spares p s (send_all s qs)
unfolding send_all
send_all-Spares p s [] = (refl, refl)
send_all-Spares p s (q ∷ qs) =
    Spares-and_then p s (send_ours s q) (λ s'. send_all s' qs) (send_ours-Spares p s q)
      (send_all-Spares p (send_ours s q).0 qs)

close_all-Spares :
    (p : PeerId) (s : Admission) (qs : List PeerId)
    → s.server ≡ some p
    → Spares p s (close_all s qs)
unfolding close_all
close_all-Spares p s [] h = (refl, refl)
close_all-Spares p s (q ∷ qs) h =
    let first = close_peer-Spares p s q Why.timed_out h in
    Spares-and_then p s (close_peer s q Why.timed_out) (λ s'. close_all s' qs) first
      (close_all-Spares p (close_peer s q Why.timed_out).0 qs (first.0 ∙ h))

module _ (X : Platform) (cbor : Cbor Statement) where
  ask_renewal-Spares :
      (p : PeerId) (s : Admission) (at : ℤ) (server_connected : Bool)
      → Spares p s (ask_renewal X cbor s at server_connected)
  unfolding ask_renewal
  ask_renewal-Spares p s at server_connected = ground arith

  renewed-Spares :
      (p : PeerId) (s : Admission) (renewal : Renewal) (at : ℤ)
      → Spares p s (on_renewed X cbor s renewal at)
  unfolding on_renewed send_waiting
  renewed-Spares p s (Renewal.issued a) at = ground (
    arith,
    send_all-Spares p (record s { renewing = false; mine = some a }) (peers_where unsent s.peers),
  )
  renewed-Spares p s (Renewal.refused reason) at = ground arith
  renewed-Spares p s (Renewal.failed error) at = ground arith

  request-Spares :
      (p : PeerId) (s : Admission) (q : PeerId) (a : Attestation) (now : Instant) (at : ℤ)
      → s.server ≡ some p
      → Spares p s (on_request X cbor s q a now at).1
  unfolding on_request
  request-Spares p s q a now at h = elim (Result-cases (verdict X cbor s q a at)) [
    | inl (why, refused) ↦ ground (arith, close_peer-Spares p s q why h)
    | inr (u, genuine) ↦
        let s1 : Admission = record s {
          peers = Map.insert q (named X cbor now u (Map.get q s.peers)) s.peers;
        } in
        ground (
          arith,
          Spares-and_then p s (send_ours s1 q) (λ s'. settle s' q) (send_ours-Spares p s1 q)
              (settle-Spares p (send_ours s1 q).0 q),
        )
  ]

  tick-Spares :
      (p : PeerId) (s : Admission) (now : Instant) (at : ℤ) (server_connected : Bool)
      → s.server ≡ some p
      → Spares p s (on_tick X cbor s now at server_connected)
  unfolding on_tick send_waiting close_overdue
  tick-Spares p s now at server_connected h =
      let asked = ask_renewal X cbor s at server_connected in
      let waiting = send_waiting asked.0 in
      let asked_ok : Spares p s asked = ask_renewal-Spares p s at server_connected in
      let both : Spares p s (and_then asked send_waiting) =
        Spares-and_then p s asked send_waiting asked_ok
          (send_all-Spares p asked.0 (peers_where unsent asked.0.peers)) in
      Spares-and_then p s (and_then asked send_waiting) (λ s'. close_overdue s' now) both
        (close_all-Spares p waiting.0 (peers_where (overdue now) waiting.0.peers) (both.0 ∙ h))

  event-Spares :
      (p : PeerId) (s : Admission) (e : AdmissionEvent)
      → s.server ≡ some p
      → Spares p s (on X cbor s e)
  unfolding on on_connected on_exchange_failed
  event-Spares p s (AdmissionEvent.connected q now) h = ground (
    arith,
    send_ours-Spares p (record s { peers = Map.insert q (begun now (Map.get q s.peers)) s.peers })
        q,
  )
  event-Spares p s (AdmissionEvent.disconnected q still_connected) h = ground arith
  event-Spares p s (AdmissionEvent.accepted q) h =
      settle-Spares p
        (record s { peers = Map.modify q (λ h. record h { we_passed = true }) s.peers }) q
  event-Spares p s (AdmissionEvent.rejected q why) h =
      close_peer-Spares p s q (Why.they_rejected why) h
  event-Spares p s (AdmissionEvent.exchange_failed q) h = (refl, refl)
  event-Spares p s (AdmissionEvent.renewed renewal at) h = renewed-Spares p s renewal at
  event-Spares p s (AdmissionEvent.tick now at server_connected) h =
      tick-Spares p s now at server_connected h

  -- No step ever asks to close the connection to this node's server.
  pub server_never_closed :
      (s : Admission) (i : Input) (server : PeerId)
      → s.server ≡ some server
      → closes server (step X cbor s i).1 ≡ false
  unfolding step
  server_never_closed s (event e) server h = (event-Spares server s e h).1
  server_never_closed s (request q a now at) server h = (request-Spares server s q a now at h).1
