-- ===== src/Groups/Standing/Signing.antt =====
-- What a verified standing proves, and that an authored one verifies: standing.rs.
use p2parchiver.Common.{
  false, ◌||◌, ◌∷◌, [], ltb, leb, any_of, ℕ, ◌≤◌, ◌≡◌, refl, ap, ◌∙◌, inl, inr, true, some, arith,
  Option-cases,
}
use p2parchiver.Common.Bytes.{Bytes, bytes_eq, bytes_eq_sound, bytes_eq_refl}
use p2parchiver.Common.Result.{ok, Result-cases, is_ok}
use p2parchiver.Common.Int.{ℤ}
use p2parchiver.Platform.{Platform, PeerId, Cbor}
use p2parchiver.Platform.{PeerText, SigningLaws, RoundTrips, CaseLaws, is_capital}
use p2parchiver.Net.Identity.{public_key_of, own_public_key}
use p2parchiver.Net.Username.{check_username, normalise_username, all_bytes, is_username_byte}
use p2parchiver.Groups.Id.{GroupId}
use p2parchiver.Groups.Standing.{
  Standing, StandingBody, Position, author, verify, wire_len, max_standing_bytes,
}

-- What passes is what was checked, and made of the bytes of a username.
check_username-same :
    (raw name : Bytes)
    → check_username raw ≡ ok name
    → (name ≡ raw) × (all_bytes is_username_byte name ≡ true)
unfolding check_username
check_username-same raw name h = (ground arith, ground arith)

-- Such bytes without a capital are ASCII, and printable.
username-ascii :
    (name : Bytes)
    → all_bytes is_username_byte name ≡ true
    → any_of is_capital name ≡ false
    → (any_of (λ b. is_capital b || leb 128 b) name ≡ false)
      × (any_of (λ b. ltb b 33 || leb 127 b) name ≡ false)
unfolding all_bytes
username-ascii [] h k = (refl, refl)
username-ascii (b ∷ name) h k =
    let (plain, graphic) = username-ascii name (ground (arith, h)) (ground (arith, k)) in
    (ground (arith, h, k, plain), ground (arith, h, k, graphic))

module _ (X : Platform) (cbor : Cbor StandingBody) where
  verify-key :
      (s : Standing) (group : GroupId) (b : StandingBody)
      → verify X cbor s group ≡ ok b
      → (p : PeerId) × (X.parse_peer_id b.peer ≡ some p)
        × (k : X.PublicKey) × (public_key_of X p ≡ some k)
        × (X.verify k s.body s.signature ≡ true)
  unfolding verify
  verify-key s group b h = elim (Option-cases (X.parse_peer_id b.peer)) [
    | inl missing ↦ absurd (ground arith)
    | inr (p, parsed) ↦ elim (Option-cases (public_key_of X p)) [
      | inl missing ↦ absurd (ground arith)
      | inr (k, recovered) ↦ (p, parsed, k, recovered, ground arith)
    ]
  ]

  -- A standing that verifies for a group fits the limit, decodes to the result, names this group and
  -- a usable username, and is signed over its exact bytes by the key inside the peer id it names.
  pub verify-Signed :
      (s : Standing) (group : GroupId) (b : StandingBody)
      → verify X cbor s group ≡ ok b
      → (wire_len s ≤ max_standing_bytes)
        × (cbor.from_reader s.body ≡ some b)
        × (b.group ≡ group)
        × (is_ok (normalise_username X b.username) ≡ true)
        × (p : PeerId) × (X.parse_peer_id b.peer ≡ some p)
        × (k : X.PublicKey) × (public_key_of X p ≡ some k)
        × (X.verify k s.body s.signature ≡ true)
  unfolding verify
  verify-Signed s group b h =
      let (p, parsed, k, recovered, genuine) = verify-key s group b h in
      (
        ground arith,
        ground arith,
        ground (arith, bytes_eq_sound b.group group),
        ground arith,
        p,
        parsed,
        k,
        recovered,
        genuine,
      )

  verify_complete :
      (s : Standing) (group : GroupId) (b : StandingBody) (p : PeerId) (k : X.PublicKey)
      (name : Bytes)
      → wire_len s ≤ max_standing_bytes
      → cbor.from_reader s.body ≡ some b
      → bytes_eq b.group group ≡ true
      → X.parse_peer_id b.peer ≡ some p
      → public_key_of X p ≡ some k
      → X.verify k s.body s.signature ≡ true
      → normalise_username X b.username ≡ ok name
      → verify X cbor s group ≡ ok b
  unfolding verify
  verify_complete s group b p k name fits decoded group' parsed recovered genuine shaped =
      ground arith

-- The body that a key signs about itself.
abbrev spoken : (X : Platform) → X.Keypair → GroupId → ℕ → Position → Bytes → ℤ → StandingBody
spoken X key group seq position name at = record {
  group = group;
  peer = X.to_base58 (X.peer_of_key key);
  seq = seq;
  position = position;
  username = name;
  at = at;
}

module _ (X : Platform) (cbor : Cbor StandingBody) (text : PeerText X) (keys : SigningLaws X)
    (reads : RoundTrips cbor) (cases : CaseLaws X) where
  -- A username that was accepted is accepted again, and stays as it is.
  normalise_again :
      (raw name : Bytes) → normalise_username X raw ≡ ok name → normalise_username X name ≡ ok name
  unfolding normalise_username
  normalise_again raw name h =
      let (is, shaped) = check_username-same (X.to_lowercase (X.trim raw)) name h in
      let small : any_of is_capital name ≡ false =
        ap (any_of is_capital) is ∙ cases.no_capital (X.trim raw) in
      let (plain, graphic) = username-ascii name shaped small in
      let again : X.to_lowercase (X.trim name) ≡ name =
        ap X.to_lowercase (cases.trim_again name graphic) ∙ cases.lower_again name plain in
      ap check_username (again ∙ is) ∙ h

  -- What `author` put together, step by step.
  author-passes :
      (key : X.Keypair) (group : GroupId) (seq : ℕ) (position : Position) (username : Bytes)
      (at : ℤ) (s : Standing)
      → author X cbor key group seq position username at ≡ ok s
      → (name : Bytes) × (normalise_username X username ≡ ok name)
        × (cbor.into_writer (spoken X key group seq position name at) ≡ some s.body)
        × (X.sign key s.body ≡ some s.signature)
  unfolding author
  author-passes key group seq position username at s h =
      elim (Result-cases (normalise_username X username)) [
        | inl (e, refused) ↦ absurd (ground arith)
        | inr (name, shaped) ↦ (name, shaped, ground arith, ground arith)
      ]

  -- Where peer ids, signatures, CBOR, lower-casing and trimming obey their laws, a standing that a key
  -- authors within the size limit verifies for its group, and says what was authored: the key's own
  -- peer, the seq, the position and the normalised name.
  pub verify-author :
      (key : X.Keypair) (group : GroupId) (seq : ℕ) (position : Position) (username : Bytes)
      (at : ℤ) (s : Standing)
      → author X cbor key group seq position username at ≡ ok s
      → wire_len s ≤ max_standing_bytes
      → (b : StandingBody) × (verify X cbor s group ≡ ok b)
        × (b.peer ≡ X.to_base58 (X.peer_of_key key))
        × (b.seq ≡ seq)
        × (b.position ≡ position)
        × (normalise_username X username ≡ ok b.username)
  verify-author key group seq position username at s h fits =
      let (name, shaped, written, signed) = author-passes key group seq position username at s h in
      let (pk, recovered, verifies) = own_public_key X keys key in
      let b : StandingBody = spoken X key group seq position name at in
      (
        b,
        verify_complete X cbor s group b (X.peer_of_key key) pk name fits (reads b s.body written)
            (bytes_eq_refl group) (text.parse-base58 (X.peer_of_key key)) recovered
            (verifies s.body s.signature signed) (normalise_again username name shaped),
        refl,
        refl,
        refl,
        shaped,
      )
