-- ===== src/Groups/Chain/Link.antt =====
-- What the head hash pins down: the hash links of chain.rs.
use mathlib.Core.List.{map-append}
use mathlib.Core.Path.{ap₂, subst₂}
use native.Mathlib.Nat.{le_refl}
use p2parchiver.Common.{
  ℕ, zero, suc, ◌≤◌, ◌≡◌, refl, sym, ap, ◌∙◌, ◌≢◌, ◌⊎◌, inl, inr, false, some, List, [], ◌∷◌, ◌++◌,
  map, arith, Bool-cases, get_elem?, take,
}
use p2parchiver.Common.Bytes.{Bytes, bytes_eq, bytes_eq_sound, bytes_eq_refl}
use p2parchiver.Platform.{Platform, Cbor}
use p2parchiver.Groups.Id.{EntryHash, no_parent, of_body}
use p2parchiver.Groups.Chain.Types.{EntryBody}
use p2parchiver.Groups.Chain.{Chain, Verified, len, head, last_hash}
use p2parchiver.Groups.Id.{tag_entry}
use p2parchiver.Groups.Chain.Rules.{IsValid}
use p2parchiver.Groups.Chain.Induction.{get_below, take-suc, take-length}

-- The signed bytes of the entries, in order.
abbrev pub bodies : List Verified → List Bytes
bodies = map (λ v. v.entry.body)

-- Two different byte strings with one hash.
abbrev pub Collision : Platform → Type 0
Collision X = (a : Bytes) × (b : Bytes) × (a ≢ b) × (X.sha256 a ≡ X.sha256 b)

last_hash-snoc :
    (h : EntryHash) (us : List Verified) (v : Verified) → last_hash h (us ++ v ∷ []) ≡ v.hash
last_hash-snoc h [] v = refl
last_hash-snoc h (u ∷ us) v = last_hash-snoc u.hash us v

last_hash-take :
    (us : List Verified) (i : ℕ) (v : Verified)
    → get_elem? us i ≡ some v
    → last_hash no_parent (take (suc i) us) ≡ v.hash
last_hash-take us i v at =
    ap (last_hash no_parent) (take-suc us i v at) ∙ last_hash-snoc no_parent (take i us) v

bodies-take :
    (us : List Verified) (i : ℕ) (v : Verified)
    → get_elem? us i ≡ some v
    → bodies (take (suc i) us) ≡ bodies (take i us) ++ v.entry.body ∷ []
bodies-take us i v at = ap bodies (take-suc us i v at) ∙ map-append _ (take i us) (v ∷ [])

cons_ne : (t : ℕ) (a b : Bytes) → bytes_eq a b ≡ false → ◌≢◌ {A = Bytes} (t ∷ a) (t ∷ b)
cons_ne t a b differ q = let tail : a ≡ b = cc q in cc (differ, tail, bytes_eq_refl b)

module _ (X : Platform) (cbor : Cbor EntryBody) where
  -- The hash of an entry at any place is that of its bytes, which decode to its body.
  pub entry_facts :
      (c : Chain) (i : ℕ) (v : Verified)
      → IsValid X cbor c
      → get_elem? c.entries i ≡ some v
      → (v.hash ≡ of_body X v.entry.body) × (cbor.from_reader v.entry.body ≡ some v.body)
  entry_facts c zero v valid at = let f = valid.founded v at in (f.hashed, f.decoded)
  entry_facts c (suc i) v valid at =
      let f = valid.follows (suc i) v (omega arith) at in (f.hashed, f.decoded)

  -- Equal bodies at one place name the same entry before them.
  prev_agrees :
      (c d : Chain) (i : ℕ) (v w : Verified)
      → IsValid X cbor c
      → IsValid X cbor d
      → get_elem? c.entries i ≡ some v
      → get_elem? d.entries i ≡ some w
      → v.body ≡ w.body
      → last_hash no_parent (take i c.entries) ≡ last_hash no_parent (take i d.entries)
  prev_agrees c d zero v w cv dv at at' e = refl
  prev_agrees c d (suc i) v w cv dv at at' e =
      sym (cv.follows (suc i) v (omega arith) at).linked
      ∙ ap (λ b. b.prev) e
      ∙ (dv.follows (suc i) w (omega arith) at').linked

  same_bytes-same_body :
      (v w : Verified)
      → v.entry.body ≡ w.entry.body
      → cbor.from_reader v.entry.body ≡ some v.body
      → cbor.from_reader w.entry.body ≡ some w.body
      → v.body ≡ w.body
  same_bytes-same_body v w e h k = cc (e, h, k)

  prefixes_agree :
      (c d : Chain)
      → IsValid X cbor c
      → IsValid X cbor d
      → (n : ℕ) → n ≤ len c
      → n ≤ len d
      → last_hash no_parent (take n c.entries) ≡ last_hash no_parent (take n d.entries)
      → (bodies (take n c.entries) ≡ bodies (take n d.entries)) ⊎ Collision X
  prefixes_agree c d cv dv zero h k e = inl refl
  prefixes_agree c d cv dv (suc i) h k e =
      let (v, at) = get_below c.entries i h in
      let (w, at') = get_below d.entries i k in
      let (hv, bv) = entry_facts c i v cv at in
      let (hw, bw) = entry_facts d i w dv at' in
      let hashes : X.sha256 (tag_entry ∷ v.entry.body) ≡ X.sha256 (tag_entry ∷ w.entry.body) =
        sym hv
        ∙ sym (last_hash-take c.entries i v at)
        ∙ e
        ∙ last_hash-take d.entries i w at'
        ∙ hw in
      elim (Bool-cases (bytes_eq v.entry.body w.entry.body)) [
        | inl same ↦
            let bytes = bytes_eq_sound _ _ same in
            let bodies' = same_bytes-same_body v w bytes bv bw in
            elim (prefixes_agree c d cv dv i (omega arith) (omega arith)
              (prev_agrees c d i v w cv dv at at' bodies')) [
                | inl before ↦ inl (
                    bodies-take c.entries i v at
                    ∙ ap₂ (λ xs x. xs ++ x ∷ []) before bytes
                    ∙ sym (bodies-take d.entries i w at'))
                | inr clash ↦ inr clash
              ]
        | inr differ ↦
            inr (tag_entry ∷ v.entry.body, tag_entry ∷ w.entry.body, cons_ne _ _ _ differ, hashes)
      ]

  -- Two valid chains of one length with one head hash hold the same signed bytes, entry by entry,
  -- unless they exhibit two different byte strings with the same SHA-256.
  pub head_determines :
      (c d : Chain)
      → IsValid X cbor c
      → IsValid X cbor d
      → len c ≡ len d
      → head c ≡ head d
      → (bodies c.entries ≡ bodies d.entries) ⊎ Collision X
  head_determines c d cv dv n h =
      subst₂ (λ us ws. (bodies us ≡ bodies ws) ⊎ Collision X) (take-length c.entries) whole
        (prefixes_agree c d cv dv (len c) (le_refl _) (omega arith)
          (rw (take-length c.entries) (h ∙ ap (last_hash no_parent) (sym whole))))
    where
      whole : take (len c) d.entries ≡ d.entries
      whole = ap (λ k. take k d.entries) n ∙ take-length d.entries
