-- ===== src/Files/Clean.antt =====
-- Texts without separators and control characters: dirname.rs, `sanitize`.
use p2parchiver.Common.{
  ℕ, zero, suc, ◌≤◌, ◌≡◌, refl, sym, ap, ◌∙◌, subst, ◌⊎◌, inl, inr, false, none, [], ◌∷◌, ◌++◌,
  arith, if◌then◌else◌, Bool-cases, take, drop,
}
use p2parchiver.Common.Bytes.{Bytes}
use p2parchiver.Files.Path.{slash, backslash_byte, has, find_control}
use p2parchiver.Files.Split.{Lacks, has-append}
use p2parchiver.Files.DirName.{is_unsafe, leads, replaced, cut_at}
use p2parchiver.Files.Parts.{IsPart}

-- Nothing that a path may not hold.
abbrev pub IsClean : Bytes → Type 0
IsClean s = (find_control s ≡ none) × Lacks slash s × Lacks backslash_byte s

pub control_tail : (b : ℕ) (s : Bytes) → find_control (b ∷ s) ≡ none → find_control s ≡ none
unfolding find_control
control_tail b [] h = refl
control_tail b (c ∷ cs) h = ground (arith, h)

pub control_front : (s z : Bytes) → find_control (s ++ z) ≡ none → find_control s ≡ none
unfolding find_control
control_front [] z h = refl
control_front (b ∷ []) z h = ground (arith, h)
control_front (b ∷ c ∷ cs) z h =
    ground (arith, h, control_front (c ∷ cs) z (control_tail b ((c ∷ cs) ++ z) h))

pub control_back : (a s : Bytes) → find_control (a ++ s) ≡ none → find_control s ≡ none
control_back [] s h = h
control_back (b ∷ a) s h = control_back a s (control_tail b (a ++ s) h)

pub Lacks-part : (b : ℕ) (s t : Bytes) → IsPart s t → Lacks b s → Lacks b t
Lacks-part b s t (a, z, h) k =
    ground (arith, has-append b a (t ++ z), has-append b t z, ap (has b) h, k)

pub part-IsClean : (s t : Bytes) → IsPart s t → IsClean s → IsClean t
part-IsClean s t (a, z, h) (c, l, m) = (
  control_front t z (control_back a (t ++ z) (sym (ap find_control h) ∙ c)),
  Lacks-part slash s t (a, z, h) l,
  Lacks-part backslash_byte s t (a, z, h) m,
)

pub replaced_head :
    (c : ℕ) (cs : Bytes)
    → (h : ℕ) × (t : Bytes) × (replaced (c ∷ cs) ≡ h ∷ t) × ((h ≡ c) ⊎ (h ≡ 95))
unfolding replaced
replaced_head c cs = elim (Bool-cases (is_unsafe c)) [
  | inl bad ↦ (95, replaced cs, ground (arith, bad), inr refl)
  | inr fine ↦ elim (Bool-cases (leads c cs)) [
    | inl two ↦ (95, drop 1 (replaced cs), ground (arith, fine, two), inr refl)
    | inr one ↦ (c, replaced cs, ground (arith, fine, one), inl refl)
  ]
]

pub mark_control : (s : Bytes) → find_control s ≡ none → find_control (95 ∷ s) ≡ none
unfolding find_control
mark_control [] h = refl
mark_control (c ∷ cs) h = ground (arith, h)

pub drop_control : (s : Bytes) → find_control s ≡ none → find_control (drop 1 s) ≡ none
drop_control [] h = h
drop_control (c ∷ cs) h = control_tail c cs h

pub kept_control :
    (b : ℕ) (bs : Bytes)
    → is_unsafe b ≡ false
    → leads b bs ≡ false
    → find_control (replaced bs) ≡ none
    → find_control (b ∷ replaced bs) ≡ none
unfolding find_control replaced
kept_control b [] fine one h = ground (arith, fine)
kept_control b (c ∷ cs) fine one h =
    let (x, t, is, which) = replaced_head c cs in
    ap (λ s. find_control (b ∷ s)) is ∙ elim which [
      | inl same ↦ ground (arith, fine, one, same, ap find_control (sym is) ∙ h)
      | inr mark ↦ ground (arith, fine, mark, ap find_control (sym is) ∙ h)
    ]

pub drop-Lacks : (b : ℕ) (s : Bytes) → Lacks b s → Lacks b (drop 1 s)
drop-Lacks b [] h = h
drop-Lacks b (c ∷ cs) h = ground (arith, h)

pub replaced-IsClean : (s : Bytes) → IsClean (replaced s)
unfolding replaced find_control
replaced-IsClean [] = (refl, refl, refl)
replaced-IsClean (b ∷ bs) =
    let (c, l, m) = replaced-IsClean bs in
    elim (Bool-cases (is_unsafe b)) [
      | inl bad ↦
          subst
            (λ t. IsClean (
              if t
              then 95 ∷ replaced bs
              else if leads b bs
              then 95 ∷ drop 1 (replaced bs)
              else b ∷ replaced bs))
            (sym bad) (mark_control (replaced bs) c, l, m)
      | inr fine ↦
          subst
            (λ t. IsClean (
              if t
              then 95 ∷ replaced bs
              else if leads b bs
              then 95 ∷ drop 1 (replaced bs)
              else b ∷ replaced bs))
            (sym fine)
            (elim (Bool-cases (leads b bs)) [
              | inl two ↦
                  subst (λ t. IsClean (if t then 95 ∷ drop 1 (replaced bs) else b ∷ replaced bs))
                    (sym two)
                    (
                      mark_control (drop 1 (replaced bs)) (drop_control (replaced bs) c),
                      drop-Lacks slash (replaced bs) l,
                      drop-Lacks backslash_byte (replaced bs) m,
                    )
              | inr one ↦
                  subst (λ t. IsClean (if t then 95 ∷ drop 1 (replaced bs) else b ∷ replaced bs))
                    (sym one)
                    (kept_control b bs fine one c, ground (arith, fine, l), ground (arith, fine, m))
            ])
    ]

pub take-IsPart : (n : ℕ) (s : Bytes) → IsPart s (take n s)
take-IsPart n s = ([], drop n s, sym (rejoined n s))
  where
    rejoined : (n : ℕ) (s : Bytes) → take n s ++ drop n s ≡ s
    rejoined zero s = refl
    rejoined (suc n) [] = refl
    rejoined (suc n) (b ∷ bs) = ap (λ x. b ∷ x) (rejoined n bs)

pub cut_at-le : (s : Bytes) (k : ℕ) → cut_at s k ≤ k
unfolding cut_at
cut_at-le s zero = omega arith
cut_at-le s (suc k) = ground (arith, cut_at-le s k)
