-- ===== src/Files/Inside.antt =====
-- What a group path may be, and that it stays inside its group: path.rs.
use p2parchiver.Common.{
  ℕ, ◌≤◌, ◌≡◌, refl, sym, ap, ◌∙◌, ◌↔◌, true, false, ◌||◌, Option, none, some, List, [], ◌∷◌, ◌++◌,
  append_assoc, append-nil, arith, ltb, if◌then◌else◌, length, All, any_of, Bool,
}
use p2parchiver.Common.Bytes.{Bytes, bytes_eq}
use p2parchiver.Common.Result.{ok, ok-injective, ok≢err, ◌>>=◌, ◌>>◌, fail_if}
use p2parchiver.Common.Result.{passed_both}
use p2parchiver.Files.Path.{
  RelPath, PathError, slash, point, has, split, join, starts_with, parse, check_component,
  check_components, find_control, max_component, max_path, join_under, push_all, backslash_byte,
  refuse_control,
}
use p2parchiver.Files.Split.{
  is_cons, Lacks, split-is_cons, join-split, split-Lacks, split-no_slash, split-join, join-Lacks,
}

-- A name that every file system takes: neither empty nor special, not too long, and without a
-- separator or a control character.
pub record IsName (c : Bytes) : Type 0 where
  pub not_empty : bytes_eq c [] ≡ false
  pub not_here : bytes_eq c (point ∷ []) ≡ false
  pub not_above : bytes_eq c (point ∷ point ∷ []) ≡ false
  pub fits : length c ≤ max_component
  pub printable : find_control c ≡ none
  pub no_slash : Lacks slash c
  pub no_backslash : Lacks backslash_byte c

-- Names with a slash between each two, within the length of a path.
abbrev pub Described : Bytes → Type 0
Described raw =
    (cs : List Bytes) × (is_cons cs ≡ true)
    × All IsName cs
    × (raw ≡ join cs)
    × (length raw ≤ max_path)

component-passes : (c : Bytes) → IsName c → check_component c ≡ ok tt
unfolding check_component
component-passes c n = ground (arith, n.not_empty, n.not_here, n.not_above, n.fits, n.printable)

refused-none : (o : Option Bytes) → refuse_control o ≡ ok tt → o ≡ none
refused-none none h = refl
refused-none (some c) h = absurd (ok≢err (sym h))

component-IsName :
    (c : Bytes) → check_component c ≡ ok tt → Lacks slash c → Lacks backslash_byte c → IsName c
unfolding check_component
component-IsName c h no_slash no_backslash =
    let (_, h1, h2) =
      passed_both
        (fail_if (bytes_eq c []) PathError.empty_component
          >> fail_if (bytes_eq c (point ∷ []) || bytes_eq c (point ∷ point ∷ []))
              (PathError.traversal c)
          >> fail_if (ltb max_component (length c)) (PathError.component_too_long c))
        _ h in
    record {
      not_empty = ground (arith, h1);
      not_here = ground (arith, h1);
      not_above = ground (arith, h1);
      fits = ground (arith, h1);
      printable = refused-none (find_control c) h2;
      no_slash = no_slash;
      no_backslash = no_backslash;
    }

components-pass : (cs : List Bytes) → All IsName cs → check_components cs ≡ ok tt
unfolding check_components
components-pass [] names = refl
components-pass (c ∷ cs) names =
    ap (λ r. r >>= λ done. check_components cs) (component-passes c names.0)
    ∙ components-pass cs names.1

components-IsName :
    (cs : List Bytes)
    → check_components cs ≡ ok tt
    → All (Lacks slash) cs
    → All (Lacks backslash_byte) cs
    → All IsName cs
unfolding check_components
components-IsName [] h s b = tt
components-IsName (c ∷ cs) h s b =
    let (done, h1, h2) = passed_both (check_component c) _ h in
    (component-IsName c h1 s.0 b.0, components-IsName cs h2 s.1 b.1)

first-Lacks : (b : ℕ) (c : Bytes) → Lacks b c → starts_with b c ≡ false
first-Lacks b [] h = refl
first-Lacks b (x ∷ c) h = ground (arith, h)

-- What passes when a path is read.
abbrev pub Passed : Bytes → RelPath → Type 0
Passed raw p =
    (length raw ≤ max_path)
    × Lacks backslash_byte raw
    × (check_components (split raw) ≡ ok tt)
    × (p.text ≡ raw)

pub parse-Passed : (raw : Bytes) (p : RelPath) → parse raw ≡ ok p → Passed raw p
unfolding parse
parse-Passed raw p h =
    let early =
      fail_if (bytes_eq raw []) PathError.empty
      >> fail_if (ltb max_path (length raw)) (PathError.too_long (length raw))
      >> fail_if (has backslash_byte raw) PathError.backslash
      >> fail_if (starts_with slash raw) PathError.absolute in
    let (_, h1, h2) = passed_both (early >> check_components (split raw)) _ h in
    let (_, h3, h4) = passed_both early _ h1 in
    (ground (arith, h3), ground (arith, h3), h4, sym (ap (λ q. q.text) (ok-injective h2)))

join-starts :
    (cs : List Bytes)
    → is_cons cs ≡ true
    → All IsName cs
    → (bytes_eq (join cs) [] ≡ false) × (starts_with slash (join cs) ≡ false)
unfolding join bytes_eq
join-starts [] h k = absurd (ground (arith, h))
join-starts ([] ∷ cs) h k = absurd (ground (arith, k.0.not_empty))
join-starts ((b ∷ c) ∷ []) h k = (refl, ground (arith, k.0.no_slash))
join-starts ((b ∷ c) ∷ d ∷ cs) h k = (refl, ground (arith, k.0.no_slash))

All-Lacks :
    (b : ℕ) (cs : List Bytes) (get : (c : Bytes) → IsName c → Lacks b c)
    → All IsName cs
    → All (Lacks b) cs
All-Lacks b [] get k = tt
All-Lacks b (c ∷ cs) get k = (get c k.0, All-Lacks b cs get k.1)

pub Described-parse : (raw : Bytes) → Described raw → parse raw ≡ ok (record { text = raw })
unfolding parse
Described-parse raw (cs, some_part, names, joined, fits) =
    let slashless = All-Lacks slash cs (λ c n. n.no_slash) names in
    let parts = ap split joined ∙ split-join cs some_part slashless in
    let (full, relative) = join-starts cs some_part names in
    let clean : has backslash_byte raw ≡ false =
      ap (has backslash_byte) joined
      ∙ join-Lacks backslash_byte cs refl
          (All-Lacks backslash_byte cs (λ c n. n.no_backslash) names) in
    let passes : check_components (split raw) ≡ ok tt =
      ap check_components parts ∙ components-pass cs names in
    let full' : bytes_eq raw [] ≡ false = ap (λ x. bytes_eq x []) joined ∙ full in
    let relative' : starts_with slash raw ≡ false = ap (starts_with slash) joined ∙ relative in
    let short : ltb max_path (length raw) ≡ false = ground (arith, fits) in
    rw full' (rw short (rw clean (rw relative' (rw passes refl))))

-- The parts of a path that was read are names.
pub parts-IsName : (raw : Bytes) (p : RelPath) → parse raw ≡ ok p → All IsName (split raw)
parts-IsName raw p h =
    let (fits, no_backslash, passed, _) = parse-Passed raw p h in
    components-IsName (split raw) passed (split-no_slash raw)
      (split-Lacks backslash_byte raw no_backslash)

-- `RelPath::parse` gives a path exactly when the text is of at most 1024 bytes and is names with a
-- slash between each two, and then the path is that text as it is; every other text it refuses.
pub parse_iff : (raw : Bytes) (p : RelPath) → (parse raw ≡ ok p) ↔ ((p.text ≡ raw) × Described raw)
parse_iff raw p = (
  λ h. (
    (parse-Passed raw p h).3,
    (
      split raw,
      split-is_cons raw,
      parts-IsName raw p h,
      sym (join-split raw),
      (parse-Passed raw p h).0,
    ),
  ),
  λ (same, described).
      Described-parse raw described ∙ ap (λ t. ok (record { text = t })) (sym same),
)

-- What a file system makes of the components of a path: `..` climbs, `.` and nothing stay.
abbrev drop_last : List Bytes → List Bytes
drop_last [] = []
drop_last (c ∷ []) = []
drop_last (c ∷ d ∷ cs) = c ∷ drop_last (d ∷ cs)

abbrev step : List Bytes → Bytes → List Bytes
step at c =
    if bytes_eq c (point ∷ point ∷ [])
    then drop_last at
    else if bytes_eq c (point ∷ []) || bytes_eq c []
    then at
    else at ++ c ∷ []

abbrev pub resolve : List Bytes → List Bytes → List Bytes
resolve at [] = at
resolve at (c ∷ cs) = resolve (step at c) cs

resolve-append : (at dir cs : List Bytes) → resolve at (dir ++ cs) ≡ resolve (resolve at dir) cs
resolve-append at [] cs = refl
resolve-append at (d ∷ dir) cs = resolve-append (step at d) dir cs

step-name : (at : List Bytes) (c : Bytes) → IsName c → step at c ≡ at ++ c ∷ []
step-name at c n = ground (arith, n.not_above, n.not_here, n.not_empty)

resolve-names : (at cs : List Bytes) → All IsName cs → resolve at cs ≡ at ++ cs
resolve-names at [] names = sym (append-nil at)
resolve-names at (c ∷ cs) names =
    ap (λ x. resolve x cs) (step-name at c names.0)
    ∙ resolve-names (at ++ c ∷ []) cs names.1
    ∙ append_assoc at (c ∷ []) cs

module _ (prefixed : Bytes → Bool) where
  push_all-names :
      (dir cs : List Bytes)
      → All IsName cs
      → any_of prefixed cs ≡ false
      → push_all prefixed dir cs ≡ dir ++ cs
  unfolding push_all
  push_all-names dir [] names plain = sym (append-nil dir)
  push_all-names dir (c ∷ cs) names plain =
      let stays : (prefixed c || starts_with slash c) ≡ false =
        ground (arith, plain, first-Lacks slash c names.0.no_slash) in
      ap (λ b. push_all prefixed (if b then c ∷ [] else dir ++ c ∷ []) cs) stays
      ∙ push_all-names (dir ++ c ∷ []) cs names.1 (ground (arith, plain))
      ∙ append_assoc dir (c ∷ []) cs

  -- A path that was accepted and none of whose parts has a path prefix of the platform (there is none
  -- on Unix), joined beneath any directory, leads to that directory and then down by its own parts,
  -- of which there is at least one: it never climbs out.
  pub join_under-inside :
      (raw : Bytes) (p : RelPath) (dir : List Bytes)
      → parse raw ≡ ok p
      → any_of prefixed (split raw) ≡ false
      → (resolve [] (join_under prefixed p dir) ≡ resolve [] dir ++ split raw)
        × (is_cons (split raw) ≡ true)
  unfolding join_under
  join_under-inside raw p dir h plain =
      let names = parts-IsName raw p h in
      (
        ap (λ t. resolve [] (push_all prefixed dir (split t))) (parse-Passed raw p h).3
            ∙ ap (resolve []) (push_all-names dir (split raw) names plain)
            ∙ resolve-append [] dir (split raw)
            ∙ resolve-names (resolve [] dir) (split raw) names,
        split-is_cons raw,
      )
