-- ===== src/Files/Renamed.antt =====
-- The parts of a path and of the path that takes another name in its directory: path.rs.
use p2parchiver.Common.{
  ℕ, ◌≤◌, ◌≡◌, refl, sym, ap, ◌∙◌, subst, ◌⊎◌, inl, inr, true, List, [], ◌∷◌, ◌++◌, append_assoc,
  arith, ◌==◌, if◌then◌else◌, Bool-cases, length, All, All-append,
}
use p2parchiver.Common.Bytes.{Bytes}
use p2parchiver.Common.Result.{ok}
use p2parchiver.Files.Path.{RelPath, slash, parse, split, with_first, join, max_path}
use p2parchiver.Files.Split.{Lacks, is_cons, split-is_cons, split_one, join-split}
use p2parchiver.Files.Inside.{IsName, parts-IsName, Described-parse}
use p2parchiver.Files.Conflict.{dir_and_name, dir_step, name-Lacks}

-- A text is its directory and its name.
step-rejoins : (c : ℕ) (y : Bytes × Bytes) → (dir_step c y).0 ++ (dir_step c y).1 ≡ c ∷ (y.0 ++ y.1)
step-rejoins c ([], name) = ground arith
step-rejoins c (d ∷ ds, name) = refl

pub dir-rejoins : (s : Bytes) → (dir_and_name s).0 ++ (dir_and_name s).1 ≡ s
unfolding dir_and_name
dir-rejoins [] = refl
dir-rejoins (c ∷ cs) = step-rejoins c (dir_and_name cs) ∙ ap (λ x. c ∷ x) (dir-rejoins cs)

-- A directory is empty or ends in a slash.
abbrev pub IsDir : Bytes → Type 0
IsDir d = (d ≡ []) ⊎ ((a : Bytes) × (d ≡ a ++ slash ∷ []))

step-IsDir : (c : ℕ) (y : Bytes × Bytes) → IsDir y.0 → IsDir (dir_step c y).0
step-IsDir c ([], name) h = elim (Bool-cases (c == slash)) [
  | inl here ↦ inr ([], ground (arith, here))
  | inr other ↦ inl (ground (arith, other))
]
step-IsDir c (d ∷ ds, name) (inl h) = absurd (ground (arith, h))
step-IsDir c (d ∷ ds, name) (inr (a, h)) = inr (c ∷ a, ap (λ x. c ∷ x) h)

pub dir_and_name-IsDir : (s : Bytes) → IsDir (dir_and_name s).0
unfolding dir_and_name
dir_and_name-IsDir [] = inl refl
dir_and_name-IsDir (c ∷ cs) = step-IsDir c (dir_and_name cs) (dir_and_name-IsDir cs)

with_first-append :
    (c : ℕ) (xs ys : List Bytes)
    → is_cons xs ≡ true
    → with_first c (xs ++ ys) ≡ with_first c xs ++ ys
with_first-append c [] ys h = absurd (ground (arith, h))
with_first-append c (x ∷ xs) ys h = refl

-- A slash ends a part.
split-slash : (a x : Bytes) → split (a ++ slash ∷ x) ≡ split a ++ split x
unfolding split
split-slash [] x = refl
split-slash (c ∷ a) x = elim (Bool-cases (c == slash)) [
  | inl here ↦
      ap (λ b. if b then [] ∷ split (a ++ slash ∷ x) else with_first c (split (a ++ slash ∷ x)))
        here
      ∙ ap (λ ps. [] ∷ ps) (split-slash a x)
      ∙ ap (λ b. (if b then [] ∷ split a else with_first c (split a)) ++ split x) (sym here)
  | inr other ↦
      ap (λ b. if b then [] ∷ split (a ++ slash ∷ x) else with_first c (split (a ++ slash ∷ x)))
        other
      ∙ ap (with_first c) (split-slash a x)
      ∙ with_first-append c (split a) (split x) (split-is_cons a)
      ∙ ap (λ b. (if b then [] ∷ split a else with_first c (split a)) ++ split x) (sym other)
]

-- The parts above the last one do not depend on the last one.
pub dir-fronts :
    (s x y : Bytes)
    → Lacks slash x
    → Lacks slash y
    → (front : List Bytes) × (split ((dir_and_name s).0 ++ x) ≡ front ++ x ∷ [])
      × (split ((dir_and_name s).0 ++ y) ≡ front ++ y ∷ [])
dir-fronts s x y lx ly = elim (dir_and_name-IsDir s) [
  | inl none_above ↦ (
    [],
    ap (λ d. split (d ++ x)) none_above ∙ split_one x lx,
    ap (λ d. split (d ++ y)) none_above ∙ split_one y ly,
  )
  | inr (a, ends) ↦ (
    split a,
    ap (λ d. split (d ++ x)) ends
        ∙ ap split (append_assoc a (slash ∷ []) x)
        ∙ split-slash a x
        ∙ ap (λ ps. split a ++ ps) (split_one x lx),
    ap (λ d. split (d ++ y)) ends
        ∙ ap split (append_assoc a (slash ∷ []) y)
        ∙ split-slash a y
        ∙ ap (λ ps. split a ++ ps) (split_one y ly),
  )
]

All-last : (xs : List Bytes) (x : Bytes) → All IsName (xs ++ x ∷ []) → All IsName xs × IsName x
All-last [] x h = (tt, h.0)
All-last (z ∷ xs) x h = let (front, last) = All-last xs x h.1 in ((h.0, front), last)

snoc-is_cons : (xs : List Bytes) (x : Bytes) → is_cons (xs ++ x ∷ []) ≡ true
snoc-is_cons [] x = refl
snoc-is_cons (z ∷ xs) x = refl

-- The name of a path that was read.
pub dir_and_name-IsName : (s : Bytes) (p : RelPath) → parse s ≡ ok p → IsName (dir_and_name s).1
dir_and_name-IsName s p h =
    let name = (dir_and_name s).1 in
    let (front, parts, _) = dir-fronts s name name (name-Lacks s) (name-Lacks s) in
    (All-last front name
      (subst (All IsName) (ap split (sym (dir-rejoins s)) ∙ parts) (parts-IsName s p h))).1

-- A path that was read, with another name in its directory, is read too if it is not too long.
pub renamed-parses :
    (s y : Bytes) (p : RelPath)
    → parse s ≡ ok p
    → IsName y
    → length ((dir_and_name s).0 ++ y) ≤ max_path
    → parse ((dir_and_name s).0 ++ y) ≡ ok (record { text = (dir_and_name s).0 ++ y })
renamed-parses s y p h is fits =
    let name = (dir_and_name s).1 in
    let (front, old, new) = dir-fronts s name y (name-Lacks s) is.no_slash in
    let above =
      (All-last front name
        (subst (All IsName) (ap split (sym (dir-rejoins s)) ∙ old) (parts-IsName s p h))).0 in
    Described-parse ((dir_and_name s).0 ++ y) (
      front ++ y ∷ [],
      snoc-is_cons front y,
      All-append IsName front (y ∷ []) above (is, tt),
      sym (join-split ((dir_and_name s).0 ++ y)) ∙ ap join new,
      fits,
    )
