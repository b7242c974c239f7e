-- ===== src/Files/Sanitized.antt =====
-- What is left of a group's name is a name for one directory: dirname.rs against path.rs.
use p2parchiver.Common.{
  ℕ, zero, suc, ◌≤◌, ◌<◌, ◌≡◌, refl, sym, ap, ◌∙◌, subst, inl, inr, true, false, some, [], ◌∷◌,
  ◌++◌, arith, ltb, if◌then◌else◌, Bool-cases, Option-cases, length, take, length-append,
  length-take,
}
use p2parchiver.Common.Bytes.{Bytes, bytes_eq, bytes_eq_sound}
use p2parchiver.Common.Result.{ok}
use p2parchiver.Platform.{Platform}
use mathlib.Core.Option.{some-injective}
use p2parchiver.Platform.{TrimLaws}
use p2parchiver.Files.Path.{point, trim_start, starts_with, parse, split, join}
use p2parchiver.Files.Split.{split_one}
use p2parchiver.Files.Inside.{IsName, Described-parse}
use p2parchiver.Files.DirName.{
  max_dirname, replaced, cut_at, some_if_any, round, trim_rounds, trim_edges, shortened,
  then_shortened, sanitize,
}
use p2parchiver.Files.Parts.{
  IsPart, IsPart-refl, IsPart-trans, part-length, trim_end-starts, trim_matches-IsPart,
  trim_start-starts,
}
use p2parchiver.Files.Clean.{IsClean, cut_at-le, part-IsClean, replaced-IsClean, take-IsPart}

module _ (X : Platform) (laws : TrimLaws X) where
  round-IsPart : (s : Bytes) → IsPart s (round X s)
  round-IsPart s =
      IsPart-trans s (X.trim s) (round X s) (laws.part-trim s)
        (trim_matches-IsPart point (X.trim s))

  -- With fuel for every byte the loop ends at a text that a round leaves alone, a part of the first.
  rounds_settle :
      (n : ℕ) (s : Bytes)
      → length s < n
      → IsPart s (trim_rounds X n s)
        × (bytes_eq (round X (trim_rounds X n s)) (trim_rounds X n s) ≡ true)
  unfolding trim_rounds
  rounds_settle zero s h = absurd (ground (arith, h))
  rounds_settle (suc n) s h = elim (Bool-cases (bytes_eq (round X s) s)) [
    | inl settled ↦
        subst
          (λ b.
            IsPart s (if b then s else trim_rounds X n (round X s))
            × (bytes_eq (round X (if b then s else trim_rounds X n (round X s)))
                  (if b then s else trim_rounds X n (round X s))
                ≡ true))
          (sym settled) (IsPart-refl s, settled)
    | inr moved ↦
        let shorter : length (round X s) < length s =
          elim (part-length s (round X s) (round-IsPart s)) [
            | inl same ↦ absurd (ground (arith, moved, same))
            | inr less ↦ less
          ] in
        let (part, rests) = rounds_settle n (round X s) (omega (arith, h, shorter)) in
        subst
          (λ b.
            IsPart s (if b then s else trim_rounds X n (round X s))
            × (bytes_eq (round X (if b then s else trim_rounds X n (round X s)))
                  (if b then s else trim_rounds X n (round X s))
                ≡ true))
          (sym moved)
          (IsPart-trans s (round X s) (trim_rounds X n (round X s)) (round-IsPart s) part, rests)
  ]

  -- What `trim_edges` leaves.
  abbrev IsTrimmed : Bytes → Bytes → Type 0
  IsTrimmed s t = IsPart s t × (starts_with point t ≡ false)

  trim_edges-IsTrimmed : (s : Bytes) → IsTrimmed s (trim_edges X s)
  trim_edges-IsTrimmed s =
      let t = trim_edges X s in
      let (part, settled) = rounds_settle (suc (length s)) s (omega arith) in
      (
        part,
        subst (λ x. starts_with point x ≡ false) (bytes_eq_sound (round X t) t settled)
            (trim_end-starts point (trim_start point (X.trim t))
              (trim_start-starts point (X.trim t))),
      )

  abbrev IsUsable : Bytes → Type 0
  IsUsable d =
      IsClean d × (starts_with point d ≡ false) × (bytes_eq d [] ≡ false) × (length d ≤ max_dirname)

  some_if_any-some : (s d : Bytes) → some_if_any s ≡ some d → (s ≡ d) × (bytes_eq d [] ≡ false)
  unfolding bytes_eq
  some_if_any-some [] d h = absurd (ground (arith, h))
  some_if_any-some (b ∷ bs) d h =
      let same : b ∷ bs ≡ d = some-injective (b ∷ bs) d h in
      (same, subst (λ x. bytes_eq x [] ≡ false) same refl)

  shortened-IsUsable :
      (r d : Bytes)
      → IsClean r
      → starts_with point r ≡ false
      → bytes_eq r [] ≡ false
      → shortened X r ≡ some d
      → IsUsable d
  shortened-IsUsable r d clean plain full h = elim (Bool-cases (ltb max_dirname (length r))) [
    | inr short ↦
        let same : r ≡ d = some-injective r d (
          sym (
            ap
              (λ b.
                if b then some_if_any (trim_edges X (take (cut_at r max_dirname) r)) else some r)
              short)
          ∙ h) in
        subst IsUsable same (clean, plain, full, ground (arith, short))
    | inl long ↦
        let cut = take (cut_at r max_dirname) r in
        let (same, full') = some_if_any-some (trim_edges X cut) d (
          sym (
            ap
              (λ b.
                if b then some_if_any (trim_edges X (take (cut_at r max_dirname) r)) else some r)
              long)
          ∙ h) in
        let ((a, z, whole), plain') = trim_edges-IsTrimmed cut in
        let left = trim_edges X cut in
        (
          subst IsClean same (
              part-IsClean cut left (a, z, whole)
                (part-IsClean r cut (take-IsPart (cut_at r max_dirname) r) clean)),
          subst (λ x. starts_with point x ≡ false) same plain',
          full',
          subst (λ x. length x ≤ max_dirname) same
              (omega (
                arith,
                cut_at-le r max_dirname,
                length-take (cut_at r max_dirname) r,
                ap length whole,
                length-append a (left ++ z),
                length-append left z,
              )),
        )
  ]

  sanitize-IsUsable : (name d : Bytes) → sanitize X name ≡ some d → IsUsable d
  unfolding sanitize
  sanitize-IsUsable name d h =
      let t = trim_edges X (replaced name) in
      let (part, plain) = trim_edges-IsTrimmed (replaced name) in
      elim (Option-cases (some_if_any t)) [
        | inl nothing ↦ absurd (ground (arith, ap (then_shortened X) nothing, h))
        | inr (r, there) ↦
            let (same, full) = some_if_any-some t r there in
            shortened-IsUsable r d
              (subst IsClean same (part-IsClean (replaced name) t part (replaced-IsClean name)))
              (subst (λ x. starts_with point x ≡ false) same plain) full
              (sym (ap (then_shortened X) there) ∙ h)
      ]

  plain_not : (d e : Bytes) → starts_with point d ≡ false → bytes_eq d (point ∷ e) ≡ false
  unfolding bytes_eq
  plain_not [] e h = refl
  plain_not (b ∷ d) e h = ground (arith, h)

  -- Whatever a group is called, the name that `sanitize` gives to its directory is one that
  -- `RelPath::parse` accepts, as a single name of at most 128 bytes.
  pub parse-sanitize :
      (name d : Bytes)
      → sanitize X name ≡ some d
      → (parse d ≡ ok (record { text = d })) × (split d ≡ d ∷ []) × (length d ≤ max_dirname)
  unfolding join
  parse-sanitize name d h =
      let ((c, l, m), plain, full, short) = sanitize-IsUsable name d h in
      let is : IsName d = record {
        not_empty = full;
        not_here = plain_not d [] plain;
        not_above = plain_not d (point ∷ []) plain;
        fits = omega (arith, short);
        printable = c;
        no_slash = l;
        no_backslash = m;
      } in
      (Described-parse d (d ∷ [], refl, (is, tt), refl, omega (arith, short)), split_one d l, short)
