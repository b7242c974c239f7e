-- ===== src/Net/Attest.antt =====
-- crates/ac-net/src/attest.rs: the server's signed statement about a client, checked by every peer.
-- The proofs are in Net.Attest.Laws.
pub mod Laws
use p2parchiver.Common.{
  ℕ, zero, suc, ◌+◌, ◌-◌, ◌*◌, ◌/◌, ◌%◌, ◌^◌, ◌≤◌, ◌<◌, min, max, ◌≡◌, refl, sym, ap, ◌∙◌, subst,
  fun_ext, ◌≢◌, ◌↔◌, ◌⊎◌, inl, inr, Bool, true, false, not, ◌&&◌, ◌||◌, Option, none, some, List,
  [], ◌∷◌, ◌++◌, map, append_assoc, append-nil, arith, ltb, leb, ◌==◌, if◌then◌else◌, is_some,
  ltb→lt, leb→le, ==_iff, ==_refl, Bool-cases, Option-cases, &&-eq-true, length, get_elem?, take,
  drop, keep_if, any_of, All, length-append, length-take, length-drop, length-keep_if-le,
  All-append,
}
use p2parchiver.Common.Bytes.{
  Bytes, bytes_eq, bytes_lt, bytes_eq_sound, bytes_eq_refl, bytes_eq_iff,
}
use p2parchiver.Common.Map
use p2parchiver.Common.Map.{Map}
use p2parchiver.Common.Result.{
  Result, ok, err, Result-cases, ok-injective, ok≢err, bind_ok, ◌>>=◌, ◌>>◌, fail_if, ok_or,
}
use p2parchiver.Common.Int.{
  ℤ, pos, negsuc, ◌+ℤ◌, ◌-ℤ◌, ◌≤ℤ◌, ◌<ℤ◌, pos_part, neg_part, ltb_ℤ, leb_ℤ, +ℤ_parts, -ℤ_parts,
}
use p2parchiver.Platform.{Platform, PeerId, Cbor}
use p2parchiver.Net.Identity.{public_key_of}

-- Seconds: 24 hours, 6 hours, and the tolerated clock skew.
abbrev pub lifetime : ℕ
lifetime = 24 * 60 * 60

abbrev pub renew_when_remaining : ℕ
renew_when_remaining = 6 * 60 * 60

abbrev pub clock_skew : ℕ
clock_skew = 300

pub record Statement : Type 0 where
  pub peer : Bytes
  pub username : Bytes
  pub server : Bytes
  pub issued_at : ℤ
  pub expires_at : ℤ

pub record Attestation : Type 0 where
  pub statement : Bytes
  pub signature : Bytes

pub data AttestError : Type 0 where
  malformed encode signing server_key bad_signature : AttestError
  wrong_server : Bytes → AttestError
  wrong_peer : Bytes → AttestError
  expired : ℤ → AttestError
  not_yet_valid unparseable_peer : AttestError

abbrev expiry_of : Result AttestError Statement → Option ℤ
expiry_of (ok s) = some s.expires_at
expiry_of (err e) = none

abbrev is_due : ℤ → Option ℤ → Bool
is_due now none = true
is_due now (some at) = leb_ℤ (at -ℤ now) (pos renew_when_remaining)

module _ (X : Platform) (cbor : Cbor Statement) where
  -- `Attestation::issue`
  unfoldable pub issue : X.Keypair → PeerId → Bytes → ℤ → ℕ → Result AttestError Attestation
  issue key peer username issued_at lifetime' = do
    bytes ←
        ok_or
          (cbor.into_writer (record {
            peer = X.to_base58 peer;
            username = username;
            server = X.to_base58 (X.peer_of_key key);
            issued_at = issued_at;
            expires_at = issued_at +ℤ pos lifetime';
          }))
          encode
    signature ← ok_or (X.sign key bytes) signing
    ok (record { statement = bytes; signature = signature })

  -- `Attestation::statement`
  unfoldable pub statement_of : Attestation → Result AttestError Statement
  statement_of a = ok_or (cbor.from_reader a.statement) malformed

  -- `Attestation::verify`
  unfoldable pub verify : Attestation → PeerId → PeerId → ℤ → Result AttestError Statement
  unfolding statement_of
  verify a subject server now = do
    statement ← statement_of a
    fail_if (not (bytes_eq statement.server (X.to_base58 server))) (wrong_server statement.server)
    key ← ok_or (public_key_of X server) server_key
    fail_if (not (X.verify key a.statement a.signature)) bad_signature
    fail_if (not (bytes_eq statement.peer (X.to_base58 subject))) (wrong_peer statement.peer)
    fail_if (not (is_some (X.parse_peer_id statement.peer))) unparseable_peer
    fail_if (leb_ℤ statement.expires_at now) (expired (now -ℤ statement.expires_at))
    fail_if (ltb_ℤ (now +ℤ pos clock_skew) statement.issued_at) not_yet_valid
    ok statement

  -- `Attestation::expires_at`
  unfoldable pub expires_at_of : Attestation → Option ℤ
  expires_at_of a = expiry_of (statement_of a)

  -- `Attestation::needs_renewal`
  unfoldable pub needs_renewal : Attestation → ℤ → Bool
  unfolding expires_at_of
  needs_renewal a now = is_due now (expires_at_of a)
