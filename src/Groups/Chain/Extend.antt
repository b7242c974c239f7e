-- ===== src/Groups/Chain/Extend.antt =====
-- Growing a chain: `Chain::extend` and `Chain::load` of chain.rs.
use mathlib.Core.List.{map-append}
use mathlib.Core.Path.{subst₂, ap₂}
use p2parchiver.Common.{
  ℕ, zero, suc, ◌<◌, ◌≡◌, refl, sym, ap, ◌∙◌, subst, ◌⊎◌, inl, inr, some, List, [], ◌∷◌, ◌++◌,
  append_assoc, append-nil, arith, length, get_elem?, take, length-append, length-map,
}
use p2parchiver.Common.Result.{
  ok, err, ◌>>=◌, passed_both, ok-injective, Result-cases, bind_ok, ok≢err,
}
use p2parchiver.Platform.{Platform, Cbor}
use p2parchiver.Groups.Chain.Types.{Entry, EntryBody, ChainError}
use p2parchiver.Groups.Chain.{
  Chain, Verified, extended, check_next, check_genesis, push, stage, extend, load, entries,
  entries_of,
}
use p2parchiver.Groups.Chain.Rules.{IsValid, Follows, check_next-Follows, check_genesis-IsValid}

get_elem?-snoc :
    (xs : List Verified) (v w : Verified) (i : ℕ)
    → get_elem? (xs ++ v ∷ []) i ≡ some w
    → ((get_elem? xs i ≡ some w) × (take i (xs ++ v ∷ []) ≡ take i xs))
      ⊎ ((w ≡ v) × (take i (xs ++ v ∷ []) ≡ xs))
get_elem?-snoc [] v w zero e = inr (ground arith, refl)
get_elem?-snoc [] v w (suc i) e = cc
get_elem?-snoc (x ∷ xs) v w zero e = inl (e, refl)
get_elem?-snoc (x ∷ xs) v w (suc i) e = elim (get_elem?-snoc xs v w i e) [
  | inl (found, same) ↦ inl (found, ap (λ t. x ∷ t) same)
  | inr (last, same) ↦ inr (last, ap (λ t. x ∷ t) same)
]

get_elem?-snoc_zero :
    (xs : List Verified) (v w : Verified)
    → 0 < length xs
    → get_elem? (xs ++ v ∷ []) 0 ≡ some w
    → get_elem? xs 0 ≡ some w
get_elem?-snoc_zero [] v w h e = elim h [ ]
get_elem?-snoc_zero (x ∷ xs) v w h e = e

module _ (X : Platform) (cbor : Cbor EntryBody) where
  -- An entry that follows a valid chain makes a valid chain.
  pub push-IsValid :
      (c : Chain) (v : Verified) → IsValid X cbor c → Follows X cbor c v → IsValid X cbor (push c v)
  push-IsValid c v valid f = record {
    founded = λ w at. valid.founded w (get_elem?-snoc_zero c.entries v w valid.nonempty at);
    follows = λ i w later at. elim (get_elem?-snoc c.entries v w i at) [
      | inl (found, same) ↦
          subst (λ es. Follows X cbor (record c { entries = es }) w) (sym same)
            (valid.follows i w later found)
      | inr (last, same) ↦
          subst₂ (λ es u. Follows X cbor (record c { entries = es }) u) (sym same) (sym last) f
    ];
    nonempty = omega (arith, length-append c.entries (v ∷ []));
  }

  -- The staged entries are the entries handed in, and the chain with them is valid.
  pub stage-IsValid :
      (c : Chain) (es : List Entry) (vs : List Verified)
      → IsValid X cbor c
      → stage X cbor c es ≡ ok vs
      → (entries_of vs ≡ es) × IsValid X cbor (record c { entries = c.entries ++ vs })
  unfolding stage
  stage-IsValid c [] vs valid h =
      subst (λ us. (entries_of us ≡ []) × IsValid X cbor (record c { entries = c.entries ++ us }))
        (ok-injective h)
        (refl, subst (λ us. IsValid X cbor (record c { entries = us })) (sym (append-nil _)) valid)
  stage-IsValid c (e ∷ es) vs valid h =
      let (v, passed, h') = passed_both (check_next X cbor c e) _ h in
      let (rest, staged, h'') = passed_both (stage X cbor (push c v) es) _ h' in
      let (same, follows) = check_next-Follows X cbor c e v passed in
      let (sames, valid') =
        stage-IsValid (push c v) es rest (push-IsValid c v valid follows) staged in
      subst
        (λ us. (entries_of us ≡ e ∷ es) × IsValid X cbor (record c { entries = c.entries ++ us }))
        (ok-injective h'')
        (
          ap₂ (λ u us. u ∷ us) same sames,
          subst (λ us. IsValid X cbor (record c { entries = us }))
              (append_assoc c.entries (v ∷ []) rest) valid',
        )

  -- From a valid chain, `extend` either appends the whole batch, and the chain stays valid with the
  -- same id and admin, or reports an error and leaves the chain as it was.
  pub extend_atomic :
      (c : Chain) (es : List Entry)
      → IsValid X cbor c
      → ((e : ChainError) × (extend X cbor c es ≡ (c, err e)))
        ⊎ ((d : Chain) × (extend X cbor c es ≡ (d, ok (length es)))
            × (entries d ≡ entries c ++ es)
            × (d.id ≡ c.id)
            × (d.admin ≡ c.admin)
            × IsValid X cbor d)
  unfolding extend
  extend_atomic c es valid = elim (Result-cases (stage X cbor c es)) [
    | inl (e, failed) ↦ inl (e, rw failed)
    | inr (vs, staged) ↦
        let (sames, valid') = stage-IsValid c es vs valid staged in
        inr (
          record c { entries = c.entries ++ vs },
          rw staged (
              ap (λ k. (record c { entries = c.entries ++ vs }, ok k))
                (sym (length-map _ vs) ∙ ap length sames)),
          map-append _ c.entries vs ∙ ap (λ us. entries c ++ us) sames,
          refl,
          refl,
          valid',
        )
  ]

  load_tail :
      (start : Chain) (g : Entry) (es : List Entry) (c : Chain)
      → entries start ≡ g ∷ []
      → IsValid X cbor start
      → extended X cbor (extend X cbor start es) ≡ ok c
      → IsValid X cbor c × (entries c ≡ g ∷ es)
  load_tail start g es c first valid h = elim (extend_atomic start es valid) [
    | inl (e, failed) ↦ absurd (ok≢err (sym h ∙ ap (extended X cbor) failed))
    | inr (d, grown, all, _, _, valid') ↦
        let same : d ≡ c = ok-injective (sym (ap (extended X cbor) grown) ∙ h) in
        (
          subst (IsValid X cbor) same valid',
          sym (ap entries same) ∙ all ∙ ap (λ us. us ++ es) first,
        )
  ]

  -- What loads is valid, and holds exactly the entries handed in.
  pub load-IsValid :
      (es : List Entry) (c : Chain) → load X cbor es ≡ ok c → IsValid X cbor c × (entries c ≡ es)
  unfolding load
  load-IsValid [] c h = cc
  load-IsValid (g ∷ es) c h =
      let ((id, admin, v), passed, h') = passed_both (check_genesis X cbor g) _ h in
      let (same, valid) = check_genesis-IsValid X cbor g id admin v passed in
      load_tail (record { id = id; admin = admin; entries = v ∷ [] }) g es c (ap (λ e. e ∷ []) same)
        valid h'

  -- The step of `stage-append`, with the first entry checked.
  stage-append_cons :
      (c : Chain) (v : Verified) (es fs : List Entry)
      → ((stage X cbor (push c v) es >>= λ vs.
            stage X cbor (record c { entries = (c.entries ++ v ∷ []) ++ vs }) fs >>= λ ws.
            ok (vs ++ ws))
          >>= λ staged. ok (v ∷ staged))
        ≡ ((stage X cbor (push c v) es >>= λ staged. ok (v ∷ staged)) >>= λ vs.
            stage X cbor (record c { entries = c.entries ++ vs }) fs >>= λ ws. ok (vs ++ ws))
  stage-append_cons c v es fs = elim (Result-cases (stage X cbor (push c v) es)) [
    | inl (e, failed) ↦ rw failed refl
    | inr (vs, staged) ↦
        rw (staged, append_assoc c.entries (v ∷ []) vs)
          (elim (Result-cases (stage X cbor (record c { entries = c.entries ++ v ∷ vs }) fs)) [
            | inl (e, failed) ↦ rw failed refl
            | inr (ws, more) ↦ rw more refl
          ])
  ]

  pub stage-append :
      (c : Chain) (es fs : List Entry)
      → stage X cbor c (es ++ fs) ≡ (
          stage X cbor c es >>= λ vs.
          stage X cbor (record c { entries = c.entries ++ vs }) fs >>= λ ws. ok (vs ++ ws))
  unfolding stage
  stage-append c [] fs = rw (append-nil c.entries) (sym (bind_ok (stage X cbor c fs)))
  stage-append c (e ∷ es) fs = elim (Result-cases (check_next X cbor c e)) [
    | inl (e', failed) ↦ rw failed refl
    | inr (v, passed) ↦ rw (passed, stage-append (push c v) es fs) (stage-append_cons c v es fs)
  ]
