-- ===== src/Net/Attest/Laws.antt =====
-- What a verified attestation proves, and how long an issued one verifies: attest.rs.
use p2parchiver.Common.{ℕ, ◌≡◌, sym, subst, inl, inr, true, false, some, arith, Option-cases}
use p2parchiver.Common.Bytes.{Bytes, bytes_eq, bytes_eq_sound, bytes_eq_refl}
use p2parchiver.Common.Result.{ok}
use p2parchiver.Common.Int.{ℤ, pos, ◌+ℤ◌, ◌≤ℤ◌, ◌<ℤ◌, +ℤ_parts, -ℤ_parts}
use p2parchiver.Platform.{Platform, PeerId, Cbor}
use p2parchiver.Platform.{PeerText, SigningLaws, RoundTrips}
use p2parchiver.Net.Identity.{public_key_of, own_public_key}
use p2parchiver.Net.Attest.{
  Attestation, Statement, issue, verify, needs_renewal, statement_of, renew_when_remaining,
  clock_skew,
}

-- `now` is inside the statement's time: before it expires, and not before it was issued by more than
-- the tolerated skew.
abbrev pub IsCurrent : Statement → ℤ → Type 0
IsCurrent s now = (now <ℤ s.expires_at) × (s.issued_at ≤ℤ now +ℤ pos clock_skew)

module _ (X : Platform) (cbor : Cbor Statement) where
  -- An attestation that verifies decodes to the result, names this server and this subject, is
  -- current, and is signed over its exact bytes by the key inside the server's peer id.
  pub verify-Genuine :
      (a : Attestation) (subject server : PeerId) (now : ℤ) (s : Statement)
      → verify X cbor a subject server now ≡ ok s
      → (cbor.from_reader a.statement ≡ some s)
        × (s.server ≡ X.to_base58 server)
        × (s.peer ≡ X.to_base58 subject)
        × IsCurrent s now
        × (k : X.PublicKey) × (public_key_of X server ≡ some k)
        × (X.verify k a.statement a.signature ≡ true)
  unfolding verify
  verify-Genuine a subject server now s h = elim (Option-cases (public_key_of X server)) [
    | inl missing ↦ absurd (ground arith)
    | inr (k, recovered) ↦ (
      ground arith,
      ground (arith, bytes_eq_sound s.server (X.to_base58 server)),
      ground (arith, bytes_eq_sound s.peer (X.to_base58 subject)),
      ground arith,
      k,
      recovered,
      ground arith,
    )
  ]

  verify_complete :
      (a : Attestation) (subject server : PeerId) (now : ℤ) (s : Statement) (p : PeerId)
      (k : X.PublicKey)
      → cbor.from_reader a.statement ≡ some s
      → bytes_eq s.server (X.to_base58 server) ≡ true
      → public_key_of X server ≡ some k
      → X.verify k a.statement a.signature ≡ true
      → bytes_eq s.peer (X.to_base58 subject) ≡ true
      → X.parse_peer_id s.peer ≡ some p
      → IsCurrent s now
      → verify X cbor a subject server now ≡ ok s
  unfolding verify
  verify_complete a subject server now s p k decoded by recovered genuine about parsed current =
      ground (arith, current.0, current.1)

  still-IsCurrent :
      (a : Attestation) (now later : ℤ) (s : Statement)
      → cbor.from_reader a.statement ≡ some s
      → needs_renewal X cbor a now ≡ false
      → now ≤ℤ later
      → later ≤ℤ now +ℤ pos renew_when_remaining
      → IsCurrent s now
      → IsCurrent s later
  unfolding needs_renewal statement_of
  still-IsCurrent a now later s decoded fresh after within current = (
    ground (arith, -ℤ_parts s.expires_at now, +ℤ_parts now (pos renew_when_remaining), current.0),
    omega (arith, +ℤ_parts later (pos clock_skew), +ℤ_parts now (pos clock_skew), current.1),
  )

  -- A verified attestation that is not due for renewal goes on verifying, with the same statement,
  -- for the next six hours.
  pub verify-needs_renewal :
      (text : PeerText X) (a : Attestation) (subject server : PeerId) (now later : ℤ)
      (s : Statement)
      → verify X cbor a subject server now ≡ ok s
      → needs_renewal X cbor a now ≡ false
      → now ≤ℤ later
      → later ≤ℤ now +ℤ pos renew_when_remaining
      → verify X cbor a subject server later ≡ ok s
  verify-needs_renewal text a subject server now later s h fresh after within =
      let (decoded, by, about, current, k, recovered, genuine) =
        verify-Genuine a subject server now s h in
      verify_complete a subject server later s subject k decoded
        (subst (λ t. bytes_eq s.server t ≡ true) by (bytes_eq_refl s.server)) recovered genuine
        (subst (λ t. bytes_eq s.peer t ≡ true) about (bytes_eq_refl s.peer))
        (subst (λ t. X.parse_peer_id t ≡ some subject) (sym about) (text.parse-base58 subject))
        (still-IsCurrent a now later s decoded fresh after within current)

-- What the server asserts about a peer that it attests.
abbrev pub asserted : (X : Platform) → X.Keypair → PeerId → Bytes → ℤ → ℕ → Statement
asserted X key peer username issued_at lasting = record {
  peer = X.to_base58 peer;
  username = username;
  server = X.to_base58 (X.peer_of_key key);
  issued_at = issued_at;
  expires_at = issued_at +ℤ pos lasting;
}

module _ (X : Platform) (cbor : Cbor Statement) (text : PeerText X) (keys : SigningLaws X)
    (reads : RoundTrips cbor) where
  issue-passes :
      (key : X.Keypair) (peer : PeerId) (username : Bytes) (issued_at : ℤ) (lasting : ℕ)
      (a : Attestation)
      → issue X cbor key peer username issued_at lasting ≡ ok a
      → (cbor.into_writer (asserted X key peer username issued_at lasting) ≡ some a.statement)
        × (X.sign key a.statement ≡ some a.signature)
  unfolding issue
  issue-passes key peer username issued_at lasting a h = ground arith

  -- An attestation that the server issues verifies for the attested peer, with the statement that
  -- was issued, from the tolerated skew before its issue until just before its lifetime is over.
  pub verify-issue :
      (key : X.Keypair) (peer : PeerId) (username : Bytes) (issued_at : ℤ) (lasting : ℕ) (now : ℤ)
      (a : Attestation)
      → issue X cbor key peer username issued_at lasting ≡ ok a
      → now <ℤ issued_at +ℤ pos lasting
      → issued_at ≤ℤ now +ℤ pos clock_skew
      → verify X cbor a peer (X.peer_of_key key) now
        ≡ ok (asserted X key peer username issued_at lasting)
  verify-issue key peer username issued_at lasting now a h before after =
      let (written, signed) = issue-passes key peer username issued_at lasting a h in
      let (pk, recovered, verifies) = own_public_key X keys key in
      verify_complete X cbor a peer (X.peer_of_key key) now
        (asserted X key peer username issued_at lasting) peer pk (reads _ a.statement written)
        (bytes_eq_refl (X.to_base58 (X.peer_of_key key))) recovered
        (verifies a.statement a.signature signed) (bytes_eq_refl (X.to_base58 peer))
        (text.parse-base58 peer) (before, after)
