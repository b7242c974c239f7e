-- ===== src/Groups/Chain/Replay.antt =====
-- A chain that grew entry by entry is the chain that loads from all its entries: chain.rs.
use p2parchiver.Common.{◌≡◌, refl, sym, ap, ◌∙◌, inl, inr, List, [], ◌∷◌, ◌++◌, append_assoc, arith}
use p2parchiver.Common.Result.{ok, err, Result-cases, ok≢err, ◌>>=◌}
use p2parchiver.Common.Int.{ℤ}
use p2parchiver.Platform.{Platform, Cbor}
use p2parchiver.Groups.Chain.Types.{Entry, EntryBody, Op, no_genesis}
use p2parchiver.Groups.Chain.{Chain, extended, check_genesis, stage, extend, load, author}
use p2parchiver.Groups.Chain.Extend.{stage-append}

module _ (X : Platform) (cbor : Cbor EntryBody) where
  extend-append :
      (c : Chain) (es fs : List Entry)
      → extended X cbor (extend X cbor c (es ++ fs))
        ≡ (extended X cbor (extend X cbor c es) >>= λ d. extended X cbor (extend X cbor d fs))
  unfolding extend
  extend-append c es fs =
      rw (stage-append X cbor c es fs) (elim (Result-cases (stage X cbor c es)) [
        | inl (e, failed) ↦ rw failed refl
        | inr (vs, staged) ↦
            rw staged
              (elim (Result-cases (stage X cbor (record c { entries = c.entries ++ vs }) fs)) [
                | inl (e, failed) ↦ rw failed refl
                | inr (ws, more) ↦
                    rw more (
                      ap (λ us. ok (record c { entries = us }))
                        (sym (append_assoc c.entries vs ws)))
              ])
      ])

  -- Loading a chain and extending it with what came later is loading it all at once, on every
  -- branch: the same chain, or the same error.
  pub load-append :
      (g : Entry) (es fs : List Entry)
      → load X cbor (g ∷ es ++ fs)
        ≡ (load X cbor (g ∷ es) >>= λ c. extended X cbor (extend X cbor c fs))
  unfolding load
  load-append g es fs = elim (Result-cases (check_genesis X cbor g)) [
    | inl (e, failed) ↦ rw failed refl
    | inr ((id, admin, v), passed) ↦ rw passed (extend-append _ es fs)
  ]

  pub author-extend :
      (c d : Chain) (key : X.Keypair) (op : Op) (at : ℤ) (e : Entry)
      → author X cbor c key op at ≡ (d, ok e)
      → extended X cbor (extend X cbor c (e ∷ [])) ≡ ok d
  unfolding author
  author-extend c d key op at e h = ground arith

  -- What the admin authors is accepted by everybody who holds the entries before it, and makes the
  -- same chain there.
  pub author-load :
      (es : List Entry) (c d : Chain) (key : X.Keypair) (op : Op) (at : ℤ) (e : Entry)
      → load X cbor es ≡ ok c
      → author X cbor c key op at ≡ (d, ok e)
      → load X cbor (es ++ e ∷ []) ≡ ok d
  author-load [] c d key op at e h k =
      let empty : load X cbor [] ≡ err no_genesis = unfold load in refl in
      absurd (ok≢err (sym h ∙ empty))
  author-load (g ∷ es) c d key op at e h k =
      load-append g es (e ∷ [])
      ∙ ap (λ r. r >>= λ b. extended X cbor (extend X cbor b (e ∷ []))) h
      ∙ author-extend c d key op at e k
