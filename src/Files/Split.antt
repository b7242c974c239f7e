-- ===== src/Files/Split.antt =====
-- Splitting a text at its slashes and joining the parts again: path.rs, `split` and `join`.
use p2parchiver.Common.{
  ℕ, ◌≡◌, refl, sym, ap, ◌∙◌, subst, inl, inr, Bool, true, false, ◌||◌, List, [], ◌∷◌, ◌++◌, arith,
  ◌==◌, if◌then◌else◌, ==_iff, Bool-cases, All,
}
use p2parchiver.Common.Bytes.{Bytes}
use p2parchiver.Files.Path.{slash, has, split, with_first, join}

abbrev pub is_cons : List Bytes → Bool
is_cons [] = false
is_cons (c ∷ cs) = true

pub split-is_cons : (raw : Bytes) → is_cons (split raw) ≡ true
unfolding split
split-is_cons [] = refl
split-is_cons (c ∷ cs) = elim (Bool-cases (c == slash)) [
  | inl here ↦ ground (arith, here)
  | inr other ↦
      ap is_cons (ap (λ b. if b then [] ∷ split cs else with_first c (split cs)) other)
      ∙ cons (split cs)
]
  where
    cons : (ps : List Bytes) → is_cons (with_first c ps) ≡ true
    cons [] = refl
    cons (p ∷ ps) = refl

join-empty_first : (ps : List Bytes) → is_cons ps ≡ true → join ([] ∷ ps) ≡ slash ∷ join ps
unfolding join
join-empty_first [] h = absurd (ground (arith, h))
join-empty_first (p ∷ ps) h = refl

join-with_first :
    (c : ℕ) (ps : List Bytes) → is_cons ps ≡ true → join (with_first c ps) ≡ c ∷ join ps
unfolding join
join-with_first c [] h = absurd (ground (arith, h))
join-with_first c (p ∷ []) h = refl
join-with_first c (p ∷ q ∷ ps) h = refl

-- The parts of a text, joined again, are the text.
pub join-split : (raw : Bytes) → join (split raw) ≡ raw
unfolding split join
join-split [] = refl
join-split (c ∷ cs) = elim (Bool-cases (c == slash)) [
  | inl here ↦
      ap (λ b. join (if b then [] ∷ split cs else with_first c (split cs))) here
      ∙ join-empty_first (split cs) (split-is_cons cs)
      ∙ ap (λ x. slash ∷ x) (join-split cs)
      ∙ ap (λ x. x ∷ cs) (sym ((==_iff c slash).0 here))
  | inr other ↦
      ap (λ b. join (if b then [] ∷ split cs else with_first c (split cs))) other
      ∙ join-with_first c (split cs) (split-is_cons cs)
      ∙ ap (λ x. c ∷ x) (join-split cs)
]

-- No part holds a byte that the text lacks.
abbrev pub Lacks : ℕ → Bytes → Type 0
Lacks b c = has b c ≡ false

with_first-Lacks :
    (b c : ℕ) (ps : List Bytes)
    → (c == b) ≡ false
    → All (Lacks b) ps
    → All (Lacks b) (with_first c ps)
with_first-Lacks b c [] h k = (ground (arith, h), tt)
with_first-Lacks b c (p ∷ ps) h k = (ground (arith, h, k.0), k.1)

pub split-Lacks : (b : ℕ) (raw : Bytes) → has b raw ≡ false → All (Lacks b) (split raw)
unfolding split
split-Lacks b [] h = (refl, tt)
split-Lacks b (c ∷ cs) h = elim (Bool-cases (c == slash)) [
  | inl here ↦
      subst (λ t. All (Lacks b) (if t then [] ∷ split cs else with_first c (split cs))) (sym here)
        (refl, split-Lacks b cs (ground (arith, h)))
  | inr other ↦
      subst (λ t. All (Lacks b) (if t then [] ∷ split cs else with_first c (split cs))) (sym other)
        (with_first-Lacks b c (split cs) (ground (arith, h)) (split-Lacks b cs (ground (arith, h))))
]

-- No part holds a slash.
pub split-no_slash : (raw : Bytes) → All (Lacks slash) (split raw)
unfolding split
split-no_slash [] = (refl, tt)
split-no_slash (c ∷ cs) = elim (Bool-cases (c == slash)) [
  | inl here ↦
      subst (λ t. All (Lacks slash) (if t then [] ∷ split cs else with_first c (split cs)))
        (sym here) (refl, split-no_slash cs)
  | inr other ↦
      subst (λ t. All (Lacks slash) (if t then [] ∷ split cs else with_first c (split cs)))
        (sym other) (with_first-Lacks slash c (split cs) other (split-no_slash cs))
]

pub split_one : (c : Bytes) → Lacks slash c → split c ≡ c ∷ []
unfolding split
split_one [] h = refl
split_one (b ∷ bs) h = ground (arith, h, split_one bs)

split_append : (c rest : Bytes) → Lacks slash c → split (c ++ slash ∷ rest) ≡ c ∷ split rest
unfolding split
split_append [] rest h = refl
split_append (b ∷ bs) rest h = ground (arith, h, split_append bs rest)

-- Parts without a slash, joined, split into the same parts.
pub split-join : (cs : List Bytes) → is_cons cs ≡ true → All (Lacks slash) cs → split (join cs) ≡ cs
unfolding join
split-join [] h k = absurd (ground (arith, h))
split-join (c ∷ []) h k = split_one c k.0
split-join (c ∷ d ∷ cs) h k =
    split_append c (join (d ∷ cs)) k.0 ∙ ap (λ ps. c ∷ ps) (split-join (d ∷ cs) refl k.1)

pub has-append : (b : ℕ) (c d : Bytes) → has b (c ++ d) ≡ (has b c || has b d)
has-append b [] d = refl
has-append b (x ∷ c) d = ground (arith, has-append b c d)

-- What no part holds, the joined text holds only if it is the slash.
pub join-Lacks :
    (b : ℕ) (cs : List Bytes) → (slash == b) ≡ false → All (Lacks b) cs → Lacks b (join cs)
unfolding join
join-Lacks b [] h k = refl
join-Lacks b (c ∷ []) h k = k.0
join-Lacks b (c ∷ d ∷ cs) h k =
    ground (arith, has-append b c (slash ∷ join (d ∷ cs)), join-Lacks b (d ∷ cs) h k.1, k.0, h)
