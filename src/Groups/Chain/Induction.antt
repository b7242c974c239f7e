-- ===== src/Groups/Chain/Induction.antt =====
-- Induction along a valid chain, one checked entry at a time.
use p2parchiver.Common.{
  ℕ, zero, suc, ◌-◌, ◌<◌, ◌≡◌, refl, sym, ap, ◌∙◌, subst, some, List, [], ◌∷◌, ◌++◌, arith, length,
  get_elem?, take,
}
use p2parchiver.Platform.{Platform, Cbor}
use p2parchiver.Groups.Chain.Types.{EntryBody}
use p2parchiver.Groups.Chain.{Chain, Verified, len}
use p2parchiver.Groups.Chain.Rules.{IsValid, Follows, Founds}

pub get_below :
    (xs : List Verified) (i : ℕ) → i < length xs → (v : Verified) × (get_elem? xs i ≡ some v)
get_below [] i h = elim h [ ]
get_below (x ∷ xs) zero h = (x, refl)
get_below (x ∷ xs) (suc i) h = get_below xs i (omega arith)

pub take-suc :
    (xs : List Verified) (i : ℕ) (v : Verified)
    → get_elem? xs i ≡ some v
    → take (suc i) xs ≡ take i xs ++ v ∷ []
take-suc [] i v e = cc
take-suc (x ∷ xs) zero v e = ap (λ y. y ∷ []) (ground arith)
take-suc (x ∷ xs) (suc i) v e = ap (λ ys. x ∷ ys) (take-suc xs i v e)

pub take-length : (xs : List Verified) → take (length xs) xs ≡ xs
take-length [] = refl
take-length (x ∷ xs) = ap (λ ys. x ∷ ys) (take-length xs)

module _ (X : Platform) (cbor : Cbor EntryBody) (c : Chain) (valid : IsValid X cbor c)
    (P : List Verified → Type 0) (base : (v : Verified) → Founds X cbor c.id c.admin v → P (v ∷ []))
    (step : (us : List Verified) (v : Verified)
      → Follows X cbor (record c { entries = us }) v
      → P us
      → P (us ++ v ∷ [])) where
  prefix_induction : (i : ℕ) → i < len c → P (take (suc i) c.entries)
  prefix_induction zero h =
      let (v, at) = get_below c.entries 0 h in
      subst P (sym (take-suc c.entries 0 v at)) (base v (valid.founded v at))
  prefix_induction (suc i) h =
      let (v, at) = get_below c.entries (suc i) h in
      subst P (sym (take-suc c.entries (suc i) v at)) (
        step (take (suc i) c.entries) v (valid.follows (suc i) v (omega arith) at)
          (prefix_induction i (omega arith)))

  pub valid_induction : P c.entries
  valid_induction =
      subst P (ap (λ n. take n c.entries) fits ∙ take-length c.entries)
        (prefix_induction (len c - 1) (omega (arith, valid.nonempty)))
    where
      fits : suc (len c - 1) ≡ len c
      fits = omega (arith, valid.nonempty)
