-- ===== src/Tests/AdmissionTests.antt =====
-- Tests and instances for attestations and the admission (crates/ac-net/src/attest.rs, admission.rs).
use p2parchiver.Common.{ℕ, ◌+◌, ◌≤◌, ◌≡◌, refl, inl, true, false, none, some, [], ◌∷◌, arith}
use p2parchiver.Common.Bytes.{bytes_eq}
use p2parchiver.Common.Map
use p2parchiver.Common.Map.{Map}
use p2parchiver.Common.Result.{ok}
use p2parchiver.Common.Int.{pos, ◌+ℤ◌, ◌-ℤ◌}
use p2parchiver.Net.Identity.{public_key_of}
use p2parchiver.Net.Attest
use p2parchiver.Net.Attest.{
  Attestation, Statement, issue, needs_renewal, statement_of, expires_at_of, renew_when_remaining,
  clock_skew,
}
use p2parchiver.Net.Attest.Laws.{
  IsCurrent, verify-Genuine, verify-needs_renewal, asserted, verify-issue,
}
use p2parchiver.Net.Admission.{
  Admission, AdmissionEvent, Why, renew, close, accepted, send_ours, settle, close_peer, on_tick,
  on, on_request, verdict, load, send_waiting, close_overdue, send_all, close_all, peers_where,
  ask_renewal,
}
use p2parchiver.Net.Admission.Steps.{is_announced}
use p2parchiver.Net.Admission.Trace.{
  Input, event, request, Any, Accepts, Emits, times_admitted, one_if, Presents, step,
}
use p2parchiver.Net.Admission.Runs.{loaded, stepped, Stays, run, admitted_earned, admitted_once}
use p2parchiver.Net.Admission.Closing.{closes, server_never_closed}
use p2parchiver.Net.Admission.Timeout.{overdue_at, tick_closes_overdue}
use p2parchiver.Tests.Toy.{
  toy, toy_text, toy_keys, statement_cbor, statement_cbor-RoundTrips, write_statement,
}

-- Server 1 attests peer 3 as "abc" at 1000, for an hour and for a day.
abbrev said : ℕ → Statement
said lasting = record {
  peer = 3 ∷ [];
  username = 97 ∷ 98 ∷ 99 ∷ [];
  server = 1 ∷ [];
  issued_at = pos 1000;
  expires_at = pos (1000 + lasting);
}

abbrev attested : ℕ → Attestation
attested lasting = record {
  statement = write_statement (said lasting);
  signature = 1 ∷ write_statement (said lasting);
}

issued_day : issue toy statement_cbor 1 3 (97 ∷ 98 ∷ 99 ∷ []) (pos 1000) 86400 ≡ ok (attested 86400)
unfolding issue ◌+ℤ◌
issued_day = refl

genuine_day : Attest.verify toy statement_cbor (attested 86400) 3 1 (pos 2000) ≡ ok (said 86400)
unfolding Attest.verify statement_of public_key_of bytes_eq ◌+ℤ◌
genuine_day = refl

verify-issue_example :
    Attest.verify toy statement_cbor (attested 86400) 3 1 (pos 2000)
    ≡ ok (asserted toy 1 3 (97 ∷ 98 ∷ 99 ∷ []) (pos 1000) 86400)
unfolding ◌+ℤ◌
verify-issue_example =
    verify-issue toy statement_cbor toy_text toy_keys statement_cbor-RoundTrips 1 3
      (97 ∷ 98 ∷ 99 ∷ []) (pos 1000) 86400 (pos 2000) (attested 86400) issued_day (omega arith)
      (omega arith)

verify-Genuine_example :
    (statement_cbor.from_reader (attested 86400).statement ≡ some (said 86400))
    × (1 ∷ [] ≡ toy.to_base58 1)
    × (3 ∷ [] ≡ toy.to_base58 3)
    × IsCurrent (said 86400) (pos 2000)
    × (k : ℕ) × (public_key_of toy 1 ≡ some k)
    × (toy.verify k (attested 86400).statement (attested 86400).signature ≡ true)
verify-Genuine_example =
    verify-Genuine toy statement_cbor (attested 86400) 3 1 (pos 2000) (said 86400) genuine_day

fresh_day : needs_renewal toy statement_cbor (attested 86400) (pos 2000) ≡ false
unfolding needs_renewal expires_at_of statement_of ◌-ℤ◌
fresh_day = refl

verify-needs_renewal_example :
    Attest.verify toy statement_cbor (attested 86400) 3 1 (pos 20000) ≡ ok (said 86400)
unfolding ◌+ℤ◌
verify-needs_renewal_example =
    verify-needs_renewal toy statement_cbor toy_text (attested 86400) 3 1 (pos 2000) (pos 20000)
      (said 86400) genuine_day fresh_day (omega arith) (omega arith)

abbrev start : Admission
start = load toy statement_cbor none 2 (some 1) (pos 2000)

abbrev shown : Input
shown = request 3 (attested 86400) 5 (pos 2000)

abbrev took : Input
took = event (accepted 3)

abbrev shown_to : Admission
shown_to = (step toy statement_cbor start shown).0

announced : Emits 3 (97 ∷ 98 ∷ 99 ∷ []) (step toy statement_cbor shown_to took).1
unfolding step on on_request verdict load send_ours settle Map.insert Map.modify Attest.verify
    statement_of public_key_of bytes_eq ◌+ℤ◌
announced = inl refl

admitted_earned_example :
    Any (Presents toy statement_cbor shown_to.server 3 (97 ∷ 98 ∷ 99 ∷ [])) (took ∷ shown ∷ [])
    × Any (Accepts 3) (took ∷ shown ∷ [])
admitted_earned_example =
    admitted_earned toy statement_cbor (shown ∷ []) shown_to took 3 (97 ∷ 98 ∷ 99 ∷ [])
      (stepped [] start shown (loaded none 2 (some 1) (pos 2000))) announced

stays : Stays toy statement_cbor 3 start (shown ∷ took ∷ took ∷ [])
unfolding step on on_request verdict load send_ours settle Map.insert Map.modify Attest.verify
    statement_of public_key_of bytes_eq ◌+ℤ◌
stays = (refl, (refl, (refl, tt)))

admitted_once_example :
    times_admitted 3 (run toy statement_cbor start (shown ∷ took ∷ took ∷ [])).1
      + one_if (is_announced (Map.get 3 start.peers))
    ≤ 1
admitted_once_example = admitted_once toy statement_cbor 3 start (shown ∷ took ∷ took ∷ []) stays

served : start.server ≡ some 1
unfolding load
served = refl

server_never_closed_example :
    closes 1 (step toy statement_cbor start (event (AdmissionEvent.rejected 1 []))).1 ≡ false
server_never_closed_example =
    server_never_closed toy statement_cbor start (event (AdmissionEvent.rejected 1 [])) 1 served

abbrev met : Admission
met = record {
  me = 2;
  server = some 1;
  mine = none;
  renewing = false;
  peers =
      (
        3,
        record {
          sent = false;
          username = none;
          we_passed = false;
          announced = false;
          deadline = 10;
        },
      )
      ∷ [];
}

tick_closes_overdue_example :
    (overdue_at 20 (Map.get 3 (on_tick toy statement_cbor met 20 (pos 0) true).0.peers) ≡ false)
    × (overdue_at 20 (Map.get 3 met.peers) ≡ true
        → (Map.get 3 (on_tick toy statement_cbor met 20 (pos 0) true).0.peers ≡ none)
          × Any (λ a. a ≡ close 3 Why.timed_out) (on_tick toy statement_cbor met 20 (pos 0) true).1)
tick_closes_overdue_example = tick_closes_overdue toy statement_cbor met 20 (pos 0) true 3 refl

closed_late :
    (on_tick toy statement_cbor met 20 (pos 0) true).1 ≡ renew 1 ∷ close 3 Why.timed_out ∷ []
unfolding on_tick ask_renewal send_waiting close_overdue send_all close_all peers_where send_ours
    close_peer Map.remove
closed_late = refl
