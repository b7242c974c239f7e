-- ===== src/Files/Marked.antt =====
-- What a path that loses its own name is called: path.rs, conflict_name.
use p2parchiver.Common.{
  ℕ, zero, suc, ◌+◌, ◌≤◌, ◌<◌, min, ◌≡◌, refl, sym, ap, ◌∙◌, subst, ◌⊎◌, inl, inr, Bool, true,
  false, not, ◌&&◌, ◌||◌, Option, none, some, [], ◌∷◌, ◌++◌, append-nil, arith, ltb, leb, ◌==◌,
  Bool-cases, Option-cases, length, take, drop, any_of,
}
use p2parchiver.Common.Bytes.{Bytes, bytes_eq, bytes_eq_sound}
use p2parchiver.Files.Path.{slash, point, backslash_byte, find_control, has, starts_with}
use p2parchiver.Files.Split.{Lacks}
use p2parchiver.Files.Clean.{control_tail}
use p2parchiver.Files.Conflict.{stem_and_ext, first_len, last_point, later, split_at, mark_of}

-- The digits of `hex::encode`.
abbrev pub is_hex : ℕ → Bool
is_hex b = (leb 48 b && leb b 57) || (leb 97 b && leb b 102)

abbrev pub IsHex : Bytes → Type 0
IsHex h = any_of (λ b. not (is_hex b)) h ≡ false

-- Printable ASCII without a separator.
abbrev pub IsPlain : Bytes → Type 0
IsPlain s = any_of (λ b. ltb b 32 || leb 127 b || b == slash || b == backslash_byte) s ≡ false

hex-IsPlain : (n : ℕ) (h : Bytes) → IsHex h → IsPlain (take n h)
hex-IsPlain zero h hex = refl
hex-IsPlain (suc n) [] hex = refl
hex-IsPlain (suc n) (b ∷ h) hex = ground (arith, hex, hex-IsPlain n h)

pub mark-IsPlain : (hash : Bytes) → IsHex hash → IsPlain (mark_of hash)
mark-IsPlain hash hex = hex-IsPlain (min 8 (length hash)) hash hex

pub plain-Lacks : (s : Bytes) → IsPlain s → Lacks slash s × Lacks backslash_byte s
plain-Lacks [] h = (refl, refl)
plain-Lacks (b ∷ s) h =
    let (l, m) = plain-Lacks s (ground (arith, h)) in (ground (arith, h, l), ground (arith, h, m))

pub plain_before : (s z : Bytes) → IsPlain s → find_control z ≡ none → find_control (s ++ z) ≡ none
unfolding find_control
plain_before [] z h k = k
plain_before (b ∷ []) [] h k = ground (arith, h)
plain_before (b ∷ []) (c ∷ z) h k = ground (arith, h, k)
plain_before (b ∷ c ∷ s) z h k = ground (arith, h, plain_before (c ∷ s) z (ground (arith, h)) k)

-- No two-byte control character comes about before a point.
pub before_point :
    (s z : Bytes)
    → find_control s ≡ none
    → find_control (point ∷ z) ≡ none
    → find_control (s ++ point ∷ z) ≡ none
unfolding find_control
before_point [] z h k = k
before_point (b ∷ []) z h k = ground (arith, h, k)
before_point (b ∷ c ∷ s) z h k =
    ground (arith, h, before_point (c ∷ s) z (control_tail b (c ∷ s) h) k)

pub longer-ne : (c d : Bytes) → length d < length c → bytes_eq c d ≡ false
longer-ne c d h = elim (Bool-cases (bytes_eq c d)) [
  | inl same ↦ absurd (omega (arith, h, ap length (bytes_eq_sound c d same)))
  | inr other ↦ other
]

pub take-drop : (n : ℕ) (s : Bytes) → take n s ++ drop n s ≡ s
take-drop zero s = refl
take-drop (suc n) [] = refl
take-drop (suc n) (b ∷ s) = ap (λ x. b ∷ x) (take-drop n s)

-- A name is its stem and its extension.
split_at-rejoins :
    (name : Bytes) (first : ℕ) (o : Option ℕ)
    → (split_at name first o).0 ++ (split_at name first o).1 ≡ name
split_at-rejoins name first none = append-nil name
split_at-rejoins name first (some at) = take-drop (at + first) name

pub stem-rejoins : (name : Bytes) → (stem_and_ext name).0 ++ (stem_and_ext name).1 ≡ name
stem-rejoins name = split_at-rejoins name (first_len name) (last_point (drop (first_len name) name))

-- The extension begins with the last point of the name, after at least a byte; a name without a point
-- after its first character has none.
abbrev pub IsExt : Bytes → Bytes → Type 0
IsExt stem ext =
    ((ext ≡ []) × Lacks point (drop (first_len stem) stem))
    ⊎ ((starts_with point ext ≡ true) × Lacks point (drop 1 ext) × (1 ≤ length stem))

drop_sum : (a b : ℕ) (s : Bytes) → drop (a + b) s ≡ drop a (drop b s)
drop_sum a zero s = ap (λ n. drop n s) {x = a + 0} {y = a} (omega arith)
drop_sum zero (suc b) s = ap (λ n. drop n s) {x = 0 + suc b} {y = suc b} (omega arith)
drop_sum (suc a) (suc b) [] =
    ap (λ n. drop n []) {x = suc a + suc b} {y = suc (a + suc b)} (omega arith)
drop_sum (suc a) (suc b) (c ∷ s) =
    ap (λ n. drop n (c ∷ s)) {x = suc a + suc b} {y = suc (suc a + b)} (omega arith)
    ∙ drop_sum (suc a) b s

later-some : (c : ℕ) (o : Option ℕ) → (later c o ≡ none) → (o ≡ none) × ((c == point) ≡ false)
later-some c none h = elim (Bool-cases (c == point)) [
  | inl here ↦ absurd (ground (arith, h, here))
  | inr other ↦ (refl, other)
]
later-some c (some k) h = absurd (ground (arith, h))

last_point-Lacks : (s : Bytes) → last_point s ≡ none → Lacks point s
unfolding last_point
last_point-Lacks [] h = refl
last_point-Lacks (c ∷ s) h =
    let (gone, other) = later-some c (last_point s) h in
    ground (arith, other, last_point-Lacks s gone)

last_point-found :
    (s : Bytes) (at : ℕ)
    → last_point s ≡ some at
    → (starts_with point (drop at s) ≡ true) × Lacks point (drop 1 (drop at s))
unfolding last_point
last_point-found [] at h = absurd (ground (arith, h))
last_point-found (c ∷ s) at h = elim (Option-cases (last_point s)) [
  | inl gone ↦
      let here : (c == point) ≡ true = ground (arith, h, gone) in
      let first : 0 ≡ at = ground (arith, h, gone, here) in
      subst
        (λ n. (starts_with point (drop n (c ∷ s)) ≡ true) × Lacks point (drop 1 (drop n (c ∷ s))))
        first (here, last_point-Lacks s gone)
  | inr (k, there) ↦
      let next : suc k ≡ at = ground (arith, h, there) in
      subst
        (λ n. (starts_with point (drop n (c ∷ s)) ≡ true) × Lacks point (drop 1 (drop n (c ∷ s))))
        next (last_point-found s k there)
]

first_len-least : (b : ℕ) (s : Bytes) → 1 ≤ first_len (b ∷ s)
first_len-least b s = ground arith

take-longer : (n b : ℕ) (s : Bytes) → 1 ≤ n → 1 ≤ length (take n (b ∷ s))
take-longer zero b s h = absurd (omega (arith, h))
take-longer (suc n) b s h = omega arith

stem-length :
    (name : Bytes) (at : ℕ)
    → last_point (drop (first_len name) name) ≡ some at
    → 1 ≤ length (take (at + first_len name) name)
unfolding last_point
stem-length [] at h = absurd (ground (arith, h))
stem-length (b ∷ s) at h =
    take-longer (at + first_len (b ∷ s)) b s (omega (arith, first_len-least b s))

pub stem_and_ext-IsExt : (name : Bytes) → IsExt (stem_and_ext name).0 (stem_and_ext name).1
stem_and_ext-IsExt name =
    let first = first_len name in
    elim (Option-cases (last_point (drop first name))) [
      | inl gone ↦
          subst (λ o. IsExt (split_at name first o).0 (split_at name first o).1) (sym gone)
            (inl (refl, last_point-Lacks (drop first name) gone))
      | inr (at, there) ↦
          let (starts, only) = last_point-found (drop first name) at there in
          let same = drop_sum at first name in
          subst (λ o. IsExt (split_at name first o).0 (split_at name first o).1) (sym there)
            (inr (
              ap (starts_with point) same ∙ starts,
              ap (λ e. has point (drop 1 e)) same ∙ only,
              stem-length name at there,
            ))
    ]
