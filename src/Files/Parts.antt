-- ===== src/Files/Parts.antt =====
-- What trimming leaves of a text: dirname.rs, `trim_edges`.
use p2parchiver.Common.{
  ℕ, ◌<◌, ◌≡◌, refl, sym, ap, ◌∙◌, ◌⊎◌, inl, inr, true, false, [], ◌∷◌, ◌++◌, append_assoc,
  append-nil, arith, ◌==◌, if◌then◌else◌, Bool-cases, length, length-append,
}
use p2parchiver.Common.Bytes.{Bytes, bytes_eq, bytes_eq_iff}
use p2parchiver.Files.Path.{trim_matches, trim_start, trim_end, trim_after, starts_with}

-- The second is the first without some bytes at its ends.
abbrev pub IsPart : Bytes → Bytes → Type 0
IsPart s t = (a : Bytes) × (b : Bytes) × (s ≡ a ++ (t ++ b))

pub IsPart-refl : (s : Bytes) → IsPart s s
IsPart-refl s = ([], [], sym (append-nil s))

pub IsPart-trans : (s t u : Bytes) → IsPart s t → IsPart t u → IsPart s u
IsPart-trans s t u (a, b, h) (c, d, k) = (
  a ++ c,
  d ++ b,
  h
      ∙ ap (λ x. a ++ (x ++ b)) k
      ∙ ap (λ x. a ++ x) (append_assoc c (u ++ d) b ∙ ap (λ x. c ++ x) (append_assoc u d b))
      ∙ sym (append_assoc a c (u ++ (d ++ b))),
)

-- A part is as long only if it is the whole.
pub part-length : (s t : Bytes) → IsPart s t → (bytes_eq t s ≡ true) ⊎ (length t < length s)
part-length s t ([], [], h) = inl ((bytes_eq_iff t s).1 (sym (append-nil t) ∙ sym h))
part-length s t ([], b ∷ bs, h) = inr (omega (arith, ap length h, length-append t (b ∷ bs)))
part-length s t (a ∷ as', b, h) =
    inr (omega (arith, ap length h, length-append as' (t ++ b), length-append t b))

pub trim_start-IsPart : (b : ℕ) (s : Bytes) → (a : Bytes) × (s ≡ a ++ trim_start b s)
unfolding trim_start
trim_start-IsPart b [] = ([], refl)
trim_start-IsPart b (c ∷ cs) = elim (Bool-cases (c == b)) [
  | inl same ↦
      let (a, h) = trim_start-IsPart b cs in
      (
        c ∷ a,
        ap (λ x. c ∷ x) h ∙ ap (λ t. c ∷ (a ++ (if t then trim_start b cs else c ∷ cs))) (sym same),
      )
  | inr other ↦ ([], ap (λ t. if t then trim_start b cs else c ∷ cs) (sym other))
]

pub trim_end-IsPart : (b : ℕ) (s : Bytes) → (z : Bytes) × (s ≡ trim_end b s ++ z)
unfolding trim_end
trim_end-IsPart b [] = ([], refl)
trim_end-IsPart b (c ∷ cs) = let (z, h) = trim_end-IsPart b cs in after (trim_end b cs) z h
  where
    after : (t z : Bytes) → cs ≡ t ++ z → (y : Bytes) × (c ∷ cs ≡ trim_after b t c ++ y)
    after [] z h = elim (Bool-cases (c == b)) [
      | inl same ↦ (
        c ∷ z,
        ap (λ x. c ∷ x) h
            ∙ ap (λ t. (if t then [] else c ∷ []) ++ (if t then c ∷ z else z)) (sym same)
            ∙ ap (λ t. (if c == b then [] else c ∷ []) ++ (if t then c ∷ z else z)) same,
      )
      | inr other ↦ (z, ap (λ x. c ∷ x) h ∙ ap (λ t. (if t then [] else c ∷ []) ++ z) (sym other))
    ]
    after (d ∷ ds) z h = (z, ap (λ x. c ∷ x) h)

pub trim_matches-IsPart : (b : ℕ) (s : Bytes) → IsPart s (trim_matches b s)
trim_matches-IsPart b s =
    let (a, h) = trim_start-IsPart b s in
    let (z, k) = trim_end-IsPart b (trim_start b s) in (a, z, h ∙ ap (λ x. a ++ x) k)

pub trim_start-starts : (b : ℕ) (s : Bytes) → starts_with b (trim_start b s) ≡ false
unfolding trim_start
trim_start-starts b [] = refl
trim_start-starts b (c ∷ cs) = ground (arith, trim_start-starts b cs)

pub trim_end-starts :
    (b : ℕ) (s : Bytes) → starts_with b s ≡ false → starts_with b (trim_end b s) ≡ false
unfolding trim_end
trim_end-starts b [] h = refl
trim_end-starts b (c ∷ cs) h = after (trim_end b cs)
  where
    after : (t : Bytes) → starts_with b (trim_after b t c) ≡ false
    after [] = ground (arith, h)
    after (d ∷ ds) = h
