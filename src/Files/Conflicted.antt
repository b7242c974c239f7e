-- ===== src/Files/Conflicted.antt =====
-- The path that `conflict_name` gives is the old one with the mark in its name: path.rs.
use p2parchiver.Common.{
  ℕ, zero, suc, ◌+◌, ◌-◌, ◌≤◌, ◌<◌, min, ◌≡◌, refl, sym, ap, ◌∙◌, subst, ◌⊎◌, inl, inr, true, false,
  none, [], ◌∷◌, ◌++◌, arith, leb, ◌==◌, if◌then◌else◌, leb→le, ==_iff, Bool-cases, length, take,
  take_all, drop, length-append, length-take,
}
use p2parchiver.Common.Bytes.{Bytes}
use p2parchiver.Common.Result.{ok}
use p2parchiver.Files.Path.{
  RelPath, slash, point, backslash_byte, parse, find_control, max_component, max_path,
}
use p2parchiver.Files.DirName.{cut_at, is_char_boundary}
use p2parchiver.Files.Split.{Lacks, has-append}
use p2parchiver.Files.Inside.{IsName}
use p2parchiver.Files.Clean.{control_front, control_back, cut_at-le}
use p2parchiver.Files.Conflict.{
  name-Lacks, dir_and_name, stem_and_ext, mark_of, marked, or_same, conflict_name, Lacks-take,
}
use p2parchiver.Files.Renamed.{
  IsDir, dir_and_name-IsDir, dir-rejoins, dir_and_name-IsName, renamed-parses,
}
use p2parchiver.Files.Marked.{
  IsHex, IsExt, mark-IsPlain, plain-Lacks, plain_before, before_point, longer-ne, take-drop,
  stem-rejoins, stem_and_ext-IsExt,
}

mark-length : (hash : Bytes) → (10 ≤ length (mark_of hash)) × (length (mark_of hash) ≤ 18)
mark-length hash = (omega arith, omega (arith, length-take (min 8 (length hash)) hash))

cut_at-boundary : (s : Bytes) (k : ℕ) → is_char_boundary s (cut_at s k) ≡ true
unfolding cut_at
cut_at-boundary s zero = refl
cut_at-boundary s (suc k) = elim (Bool-cases (is_char_boundary s (suc k))) [
  | inl here ↦
      subst (λ b. is_char_boundary s (if b then suc k else cut_at s k) ≡ true) (sym here) here
  | inr away ↦
      subst (λ b. is_char_boundary s (if b then suc k else cut_at s k) ≡ true) (sym away)
        (cut_at-boundary s k)
]

cut_at-whole : (s : Bytes) (k : ℕ) → k ≡ length s → cut_at s k ≡ length s
unfolding cut_at
cut_at-whole s zero h = h
cut_at-whole s (suc k) h =
    let whole : is_char_boundary s (suc k) ≡ true = ground (arith, h) in
    ap (λ b. if b then suc k else cut_at s k) whole ∙ h

-- No boundary lies between the cut and where the search for it began.
cut_at-most : (s : Bytes) (k j : ℕ) → (j ≤ cut_at s k) ⊎ (is_char_boundary s j ≡ false) ⊎ (k < j)
unfolding cut_at
cut_at-most s zero j = elim (Bool-cases (leb j 0)) [
  | inl low ↦ inl (leb→le j 0 low)
  | inr high ↦ inr (inr (ground (arith, high)))
]
cut_at-most s (suc k) j = elim (Bool-cases (is_char_boundary s (suc k))) [
  | inl here ↦ elim (Bool-cases (leb j (suc k))) [
    | inl low ↦ inl (ground (arith, low, here))
    | inr high ↦ inr (inr (ground (arith, high)))
  ]
  | inr away ↦ elim (cut_at-most s k j) [
    | inl low ↦ inl (ground (arith, low, away))
    | inr (inl split_there) ↦ inr (inl split_there)
    | inr (inr beyond) ↦ elim (Bool-cases (j == suc k)) [
      | inl same ↦
          inr
            (inl (subst (λ i. is_char_boundary s i ≡ false) (sym ((==_iff j (suc k)).0 same)) away))
      | inr other ↦ inr (inr (ground (arith, beyond, other)))
    ]
  ]
]

abbrev room_for : Bytes → Bytes → Bytes → ℕ
room_for stem mark ext = min (max_component - (length mark + length ext)) (length stem)

-- Of the stem all is kept, or the whole of it would be too long.
stem-kept :
    (stem mark ext : Bytes)
    → (cut_at stem (room_for stem mark ext) ≡ length stem)
      ⊎ (max_component < length stem + (length mark + length ext))
stem-kept stem mark ext =
    elim (Bool-cases (leb (length stem + (length mark + length ext)) max_component)) [
      | inl fits ↦ inl (cut_at-whole stem (room_for stem mark ext) (ground (arith, fits)))
      | inr long ↦ inr (ground (arith, long))
    ]

-- A longer part of the stem is longer than the stem, splits a character or leaves no room.
stem-most :
    (stem mark ext : Bytes) (j : ℕ)
    → (j ≤ cut_at stem (room_for stem mark ext))
      ⊎ (is_char_boundary stem j ≡ false)
      ⊎ ((length stem < j) ⊎ (max_component < j + (length mark + length ext)))
stem-most stem mark ext j = elim (cut_at-most stem (room_for stem mark ext) j) [
  | inl low ↦ inl low
  | inr (inl split_there) ↦ inr (inl split_there)
  | inr (inr beyond) ↦ inr (
      inr (elim (Bool-cases (leb j (length stem))) [
        | inl inside ↦ inr (ground (arith, beyond, inside))
        | inr outside ↦ inl (ground (arith, outside))
      ]))
]

marked-length :
    (stem mark ext : Bytes)
    → length mark + length ext ≤ max_component
    → (length (marked stem mark ext) ≤ max_component)
      × (length (marked stem mark ext) ≤ length stem + (length mark + length ext))
      × (length mark ≤ length (marked stem mark ext))
marked-length stem mark ext h =
    let n = cut_at stem (room_for stem mark ext) in
    let below = cut_at-le stem (room_for stem mark ext) in
    let all = length-append (take n stem) (mark ++ ext) in
    let tail = length-append mark ext in
    let front = length-take n stem in
    (
      omega (arith, below, all, tail, front, h),
      omega (arith, below, all, tail, front, h),
      omega (arith, all, tail),
    )

mark_control :
    (hash ext : Bytes)
    → IsHex hash
    → find_control ext ≡ none
    → find_control (mark_of hash ++ ext) ≡ none
mark_control hash ext hex h = plain_before (mark_of hash) ext (mark-IsPlain hash hex) h

marked-Lacks :
    (b : ℕ) (stem mark ext : Bytes)
    → Lacks b (stem ++ ext)
    → Lacks b mark
    → Lacks b (marked stem mark ext)
marked-Lacks b stem mark ext whole m =
    let n = cut_at stem (room_for stem mark ext) in
    let both = has-append b stem ext in
    ground (
      arith,
      has-append b (take n stem) (mark ++ ext),
      has-append b mark ext,
      Lacks-take b n stem (ground (arith, whole, both)),
      whole,
      both,
      m,
    )

-- A name with the mark in it is a name.
marked-IsName :
    (stem hash ext : Bytes)
    → IsName (stem ++ ext)
    → IsHex hash
    → length (mark_of hash) + length ext ≤ max_component
    → IsName (marked stem (mark_of hash) ext)
marked-IsName stem hash ext is hex short =
    let mark = mark_of hash in
    let n = cut_at stem (room_for stem mark ext) in
    let (fits, _, long) = marked-length stem mark ext short in
    let (least, _) = mark-length hash in
    let (no_slash, no_backslash) = plain-Lacks mark (mark-IsPlain hash hex) in
    let front =
      control_front (take n stem) (drop n stem)
        (ap find_control (take-drop n stem) ∙ control_front stem ext is.printable) in
    record {
      not_empty = longer-ne (marked stem mark ext) [] (omega (arith, least, long));
      not_here = longer-ne (marked stem mark ext) (point ∷ []) (omega (arith, least, long));
      not_above =
          longer-ne (marked stem mark ext) (point ∷ point ∷ []) (omega (arith, least, long));
      fits = fits;
      printable =
          before_point (take n stem) _ front
            (mark_control hash ext hex (control_back stem ext is.printable));
      no_slash = marked-Lacks slash stem mark ext is.no_slash no_slash;
      no_backslash = marked-Lacks backslash_byte stem mark ext is.no_backslash no_backslash;
    }

-- `.conflict-`
abbrev label : Bytes
label = 46 ∷ 99 ∷ 111 ∷ 110 ∷ 102 ∷ 108 ∷ 105 ∷ 99 ∷ 116 ∷ 45 ∷ []

take-min : (n : ℕ) (s : Bytes) → take (min n (length s)) s ≡ take n s
take-min n s = elim (Bool-cases (leb n (length s))) [
  | inl low ↦ ap (λ k. take k s) {x = min n (length s)} {y = n} (ground (arith, low))
  | inr high ↦
      ap (λ k. take k s) {x = min n (length s)} {y = length s} (ground (arith, high))
      ∙ take_all (length s) s (omega arith)
      ∙ sym (take_all n s (ground (arith, high)))
]

-- The second path is the first with the mark between the stem and the extension of its name.
pub record Marks (p q : RelPath) (hash : Bytes) : Type 0 where
  pub dir : Bytes
  pub stem : Bytes
  pub ext : Bytes
  pub mark : Bytes
  pub kept : ℕ
  pub was : p.text ≡ dir ++ (stem ++ ext)
  pub is_dir : IsDir dir
  pub is_name : Lacks slash (stem ++ ext)
  pub is_ext : IsExt stem ext
  pub is_mark : mark ≡ label ++ take 8 hash
  pub is_now : q.text ≡ dir ++ (take kept stem ++ (mark ++ ext))
  pub all_or_full :
      (kept ≡ length stem) ⊎ (max_component < length stem + (length mark + length ext))
  pub most :
      (j : ℕ)
      → (j ≤ kept)
        ⊎ (is_char_boundary stem j ≡ false)
        ⊎ ((length stem < j) ⊎ (max_component < j + (length mark + length ext)))
  pub no_split : is_char_boundary stem kept ≡ true
  pub fits : length (take kept stem ++ (mark ++ ext)) ≤ max_component
  pub accepted : parse q.text ≡ ok q

-- Where the extension leaves room for a mark of 18 bytes in a name and the path for 18 bytes more, a
-- path that was accepted and loses its own name to a hash in hexadecimal digits stays in its
-- directory and keeps its extension, which begins at the last point of the name, and its stem gets
-- `.conflict-` and the first 8 digits as a mark: of the stem all is kept or, where the name would be
-- longer than 255 bytes, the longest part that splits no character and leaves a name of at most 255.
-- The result is a path that `parse` accepts.
pub conflict_name-Marks :
    (p : RelPath) (hash : Bytes)
    → parse p.text ≡ ok p
    → IsHex hash
    → length (stem_and_ext (dir_and_name p.text).1).1 + 18 ≤ max_component
    → length p.text + 18 ≤ max_path
    → Marks p (conflict_name p hash) hash
unfolding conflict_name
conflict_name-Marks p hash valid hex short room =
    let dir = (dir_and_name p.text).0 in
    let name = (dir_and_name p.text).1 in
    let stem = (stem_and_ext name).0 in
    let ext = (stem_and_ext name).1 in
    let mark = mark_of hash in
    let new = marked stem mark ext in
    let whole : stem ++ ext ≡ name = stem-rejoins name in
    let (least, most) = mark-length hash in
    let small : length mark + length ext ≤ max_component = omega (arith, most, short) in
    let (fits, grown, _) = marked-length stem mark ext small in
    let is : IsName new =
      marked-IsName stem hash ext (subst IsName (sym whole) (dir_and_name-IsName p.text p valid))
        hex small in
    let total : length (dir ++ new) ≤ max_path = omega (
      arith,
      length-append dir new,
      grown,
      most,
      room,
      ap length (dir-rejoins p.text),
      length-append dir name,
      ap length whole,
      length-append stem ext,
    ) in
    let read = renamed-parses p.text new p valid is total in
    subst (λ r. Marks p (or_same p r) hash) (sym read)
      (record {
        dir = dir;
        stem = stem;
        ext = ext;
        mark = mark;
        kept = cut_at stem (room_for stem mark ext);
        was = sym (dir-rejoins p.text) ∙ ap (λ x. dir ++ x) (sym whole);
        is_dir = dir_and_name-IsDir p.text;
        is_name = subst (Lacks slash) (sym whole) (name-Lacks p.text);
        is_mark = ap (λ r. label ++ r) (take-min 8 hash);
        is_ext = stem_and_ext-IsExt name;
        is_now = refl;
        all_or_full = stem-kept stem mark ext;
        most = stem-most stem mark ext;
        no_split = cut_at-boundary stem (room_for stem mark ext);
        fits = fits;
        accepted = read;
      })
