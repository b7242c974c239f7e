-- ===== src/Tests/PathTests.antt =====
-- Tests and instances for group paths (crates/ac-files/src/path.rs).
use p2parchiver.Common.{
  Bool, ◌++◌, ℕ, zero, suc, false, ◌==◌, ◌+◌, arith, any_of, length, ◌≤◌, ◌≡◌, refl, ◌↔◌, true,
  some, [], ◌∷◌,
}
use p2parchiver.Common.Bytes.{Bytes, bytes_eq}
use p2parchiver.Common.Result.{ok, err}
use p2parchiver.Files.Path.{
  PathError, Component, split, join, parse, from_fs, parts_of, check_component, check_components,
  find_control, join_under, push_all, max_component, file_name, under, trim_start, trim_end,
}
use p2parchiver.Files.Conflict.{conflict_name, mark_of, stem_and_ext, dir_and_name, last_point}
use p2parchiver.Files.Conflicted.{Marks, conflict_name-Marks}
use p2parchiver.Files.DirName.{cut_at, sanitize, replaced, trim_rounds}
use p2parchiver.Files.Sanitized.{parse-sanitize}
use p2parchiver.Tests.Toy.{toy, toy_trim}
use p2parchiver.Files.Split.{is_cons}
use p2parchiver.Files.Inside.{Described, parse_iff, join_under-inside, resolve}

-- `a/b.c`
abbrev text : Bytes
text = 97 ∷ 47 ∷ 98 ∷ 46 ∷ 99 ∷ []

reads : parse text ≡ ok (record { text = text })
unfolding parse split check_components check_component find_control bytes_eq
reads = refl

-- `../a`
climbs : parse (46 ∷ 46 ∷ 47 ∷ 97 ∷ []) ≡ err (PathError.traversal (46 ∷ 46 ∷ []))
unfolding parse split check_components check_component find_control bytes_eq
climbs = refl

-- A delete character, and U+0085 in its two bytes.
controls :
    (parse (97 ∷ 127 ∷ []) ≡ err (PathError.control (127 ∷ [])))
    × (parse (194 ∷ 133 ∷ []) ≡ err (PathError.control (194 ∷ 133 ∷ [])))
unfolding parse split check_components check_component find_control bytes_eq
controls = (refl, refl)

last_name : file_name (record { text = text }) ≡ 98 ∷ 46 ∷ 99 ∷ []
unfolding file_name split
last_name = refl

-- The slashes around `/d/` do not count.
trims : under (47 ∷ 100 ∷ 47 ∷ []) (97 ∷ []) ≡ ok (record { text = 100 ∷ 47 ∷ 97 ∷ [] })
unfolding under trim_start trim_end parse split check_components check_component find_control
    bytes_eq
trims = refl

from_two :
    from_fs (Component.normal (some (97 ∷ [])) [] ∷ Component.normal (some (98 ∷ [])) [] ∷ [])
    ≡ ok (record { text = 97 ∷ 47 ∷ 98 ∷ [] })
unfolding from_fs parts_of join parse split check_components check_component find_control bytes_eq
from_two = refl

parse_iff_example : (parse text ≡ ok (record { text = text })) ↔ ((text ≡ text) × Described text)
parse_iff_example = parse_iff text (record { text = text })

-- Unix has no path prefixes.
abbrev no_prefix : Bytes → Bool
no_prefix c = false

-- On Windows a letter and a colon are one.
abbrev drive : Bytes → Bool
drive (b ∷ c ∷ cs) = c == 58
drive cs = false

unprefixed : any_of no_prefix (split text) ≡ false
unfolding split
unprefixed = refl

join_under-inside_example :
    (resolve [] (join_under no_prefix (record { text = text }) ((100 ∷ []) ∷ []))
      ≡ (100 ∷ []) ∷ split text)
    × (is_cons (split text) ≡ true)
unfolding bytes_eq
join_under-inside_example =
    join_under-inside no_prefix text (record { text = text }) ((100 ∷ []) ∷ []) reads unprefixed

-- `C:a` is a path, and takes the place of the directory where `C:` is a prefix.
drive_replaces :
    (parse (67 ∷ 58 ∷ 97 ∷ []) ≡ ok (record { text = 67 ∷ 58 ∷ 97 ∷ [] }))
    × (join_under drive (record { text = 67 ∷ 58 ∷ 97 ∷ [] }) ((100 ∷ []) ∷ [])
        ≡ (67 ∷ 58 ∷ 97 ∷ []) ∷ [])
unfolding parse split check_components check_component find_control bytes_eq join_under push_all
drive_replaces = (refl, refl)

-- `.a/b.` loses its dots and its slash.
cleaned : sanitize toy (46 ∷ 97 ∷ 47 ∷ 98 ∷ 46 ∷ []) ≡ some (97 ∷ 95 ∷ 98 ∷ [])
unfolding sanitize replaced trim_rounds trim_start trim_end bytes_eq
cleaned = refl

parse-sanitize_example :
    (parse (97 ∷ 95 ∷ 98 ∷ []) ≡ ok (record { text = 97 ∷ 95 ∷ 98 ∷ [] }))
    × (split (97 ∷ 95 ∷ 98 ∷ []) ≡ (97 ∷ 95 ∷ 98 ∷ []) ∷ [])
    × (3 ≤ 128)
parse-sanitize_example =
    parse-sanitize toy toy_trim (46 ∷ 97 ∷ 47 ∷ 98 ∷ 46 ∷ []) (97 ∷ 95 ∷ 98 ∷ []) cleaned

-- `a/b.c` gives way as `a/b.conflict-99999999.c`.
abbrev nines : Bytes
nines = 57 ∷ 57 ∷ 57 ∷ 57 ∷ 57 ∷ 57 ∷ 57 ∷ 57 ∷ 57 ∷ []

gives_way :
    (conflict_name (record { text = text }) nines).text
    ≡ 97 ∷ 47 ∷ 98 ∷ 46 ∷ 99 ∷ 111 ∷ 110 ∷ 102 ∷ 108 ∷ 105 ∷ 99 ∷ 116 ∷ 45 ∷ 57 ∷ 57 ∷ 57 ∷ 57 ∷ 57
      ∷ 57 ∷ 57 ∷ 57 ∷ 46 ∷ 99 ∷ []
unfolding conflict_name dir_and_name last_point cut_at parse split check_components check_component
    find_control bytes_eq
gives_way = refl

abbrev letters : ℕ → Bytes
letters zero = []
letters (suc n) = 97 ∷ letters n

-- A name of 255 bytes loses 18 of them to the mark.
long_name_too :
    (length (conflict_name (record { text = letters 255 }) nines).text ≡ 255)
    × (bytes_eq
          (conflict_name (record { text = letters 255 }) nines).text
          (letters 237 ++ mark_of nines)
        ≡ true)
unfolding conflict_name dir_and_name last_point cut_at parse split check_components check_component
    find_control bytes_eq
long_name_too = (refl, refl)

short_ext : length (stem_and_ext (dir_and_name text).1).1 + 18 ≤ max_component
unfolding dir_and_name last_point
short_ext = omega arith

conflict_name-Marks_example :
    Marks (record { text = text }) (conflict_name (record { text = text }) nines) nines
conflict_name-Marks_example =
    conflict_name-Marks (record { text = text }) nines reads refl short_ext (omega arith)
