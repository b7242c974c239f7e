-- ===== src/Common/Result.antt =====
-- `Result<A, E>` with `?` as bind, and the early returns of fallible code.
use mathlib.Core.Path.{◌≡◌, refl}
use mathlib.Core.Logic.{◌⊎◌, inl, inr}
use mathlib.Core.Bool.{Bool, true, false}
use mathlib.Core.Option.{Option, none, some}

pub data Result {ℓ} (E A : Type ℓ) : Type ℓ where
  ok : A → Result E A
  err : E → Result E A

-- `if test { return Err(e) }`
abbrev pub fail_if {ℓ} : {E : Type ℓ} → Bool → E → Result E (Unit {ℓ})
fail_if true e = err e
fail_if false e = ok tt

-- `option.ok_or(e)?`
abbrev pub ok_or {ℓ} : {E A : Type ℓ} → Option A → E → Result E A
ok_or none e = err e
ok_or (some a) e = ok a

-- `step?` before the rest of a function: the rest runs on the value, and an error is the result.
abbrev pub ◌>>=◌ {ℓ} : {E S T : Type ℓ} → Result E S → (S → Result E T) → Result E T
err failure >>= rest = err failure
ok value >>= rest = rest value

infixl 5 ◌>>=◌
-- `test?;` before the rest.
abbrev pub ◌>>◌ {ℓ} : {E T : Type ℓ} → Result E (Unit {ℓ}) → Result E T → Result E T
test >> rest = test >>= λ done. rest

infixl 5 ◌>>◌
-- When the whole passes, so did the step before the rest.
pub passed_both {ℓ} :
    {E S T : Type ℓ} {t : T} (before : Result E S) (rest : S → Result E T)
    → (before >>= rest) ≡ ok t
    → (s : S) × (before ≡ ok s) × (rest s ≡ ok t)
passed_both (err failure) rest e = cc
passed_both (ok value) rest e = (value, refl, e)

pub ok-injective {ℓ} : {E A : Type ℓ} {a b : A} → ◌≡◌ {A = Result E A} (ok a) (ok b) → a ≡ b
ok-injective h = cc

pub err-injective {ℓ} : {E A : Type ℓ} {a b : E} → ◌≡◌ {A = Result E A} (err a) (err b) → a ≡ b
err-injective h = cc

pub Result-cases {ℓ} :
    {E A : Type ℓ} (r : Result E A) → ((e : E) × (r ≡ err e)) ⊎ ((a : A) × (r ≡ ok a))
Result-cases (ok a) = inr (a, refl)
Result-cases (err e) = inl (e, refl)

pub bind_ok {ℓ} : {E A : Type ℓ} (r : Result E A) → (r >>= λ a. ok a) ≡ r
bind_ok (ok a) = refl
bind_ok (err e) = refl

pub ok≢err {ℓ} : {E A : Type ℓ} {a : A} {e : E} → ◌≡◌ {A = Result E A} (ok a) (err e) → ⊥
ok≢err h = cc

abbrev pub is_ok {ℓ} : {E A : Type ℓ} → Result E A → Bool
is_ok (ok a) = true
is_ok (err e) = false
