-- ===== src/Files/Conflict.antt =====
-- The name that a path takes when it loses its own: path.rs, conflict_name.
use p2parchiver.Common.{
  ℕ, zero, suc, ◌+◌, ◌-◌, min, refl, Option, none, some, [], ◌∷◌, ◌++◌, arith, ltb, ◌==◌,
  if◌then◌else◌, length, take, drop,
}
use p2parchiver.Common.Bytes.{Bytes}
use p2parchiver.Common.Result.{Result, ok, err}
use p2parchiver.Files.Path.{RelPath, PathError, slash, point, parse, max_component}
use p2parchiver.Files.DirName.{cut_at}
use p2parchiver.Files.Split.{Lacks}

abbrev pub dir_step : ℕ → Bytes × Bytes → Bytes × Bytes
dir_step c ([], name) = if c == slash then (c ∷ [], name) else ([], c ∷ name)
dir_step c (d ∷ ds, name) = (c ∷ d ∷ ds, name)

-- The text up to its last slash, the slash included, and what follows.
unfoldable pub dir_and_name : Bytes → Bytes × Bytes
dir_and_name [] = ([], [])
dir_and_name (c ∷ cs) = dir_step c (dir_and_name cs)

-- `char::len_utf8` of the first character.
abbrev pub first_len : Bytes → ℕ
first_len [] = 0
first_len (b ∷ bs) = if ltb b 128 then 1 else if ltb b 224 then 2 else if ltb b 240 then 3 else 4

abbrev pub later : ℕ → Option ℕ → Option ℕ
later c none = if c == point then some 0 else none
later c (some k) = some (k + 1)

-- `rfind('.')`
unfoldable pub last_point : Bytes → Option ℕ
last_point [] = none
last_point (c ∷ cs) = later c (last_point cs)

abbrev pub split_at : Bytes → ℕ → Option ℕ → Bytes × Bytes
split_at name first none = (name, [])
split_at name first (some at) = (take (at + first) name, drop (at + first) name)

-- The stem and the extension: a point at the start begins no extension.
abbrev pub stem_and_ext : Bytes → Bytes × Bytes
stem_and_ext name = split_at name (first_len name) (last_point (drop (first_len name) name))

-- `.conflict-` and the first bytes of the hash.
abbrev pub mark_of : Bytes → Bytes
mark_of hash =
    (46 ∷ 99 ∷ 111 ∷ 110 ∷ 102 ∷ 108 ∷ 105 ∷ 99 ∷ 116 ∷ 45 ∷ []) ++ take (min 8 (length hash)) hash

abbrev pub or_same : RelPath → Result PathError RelPath → RelPath
or_same p (ok q) = q
or_same p (err e) = p

abbrev pub marked : Bytes → Bytes → Bytes → Bytes
marked stem mark ext =
    let room = min (max_component - (length mark + length ext)) (length stem) in
    take (cut_at stem room) stem ++ (mark ++ ext)

-- `RelPath::conflict_name`
unfoldable pub conflict_name : RelPath → Bytes → RelPath
conflict_name p hash =
    let (dir, name) = dir_and_name p.text in
    let (stem, ext) = stem_and_ext name in or_same p (parse (dir ++ marked stem (mark_of hash) ext))

dir_step-Lacks : (c : ℕ) (x : Bytes × Bytes) → Lacks slash x.1 → Lacks slash (dir_step c x).1
dir_step-Lacks c ([], name) h = ground (arith, h)
dir_step-Lacks c (d ∷ ds, name) h = h

pub name-Lacks : (s : Bytes) → Lacks slash (dir_and_name s).1
unfolding dir_and_name
name-Lacks [] = refl
name-Lacks (c ∷ cs) = dir_step-Lacks c (dir_and_name cs) (name-Lacks cs)

pub Lacks-take : (b n : ℕ) (s : Bytes) → Lacks b s → Lacks b (take n s)
Lacks-take b zero s h = refl
Lacks-take b (suc n) [] h = h
Lacks-take b (suc n) (c ∷ cs) h = ground (arith, h, Lacks-take b n cs)

pub Lacks-drop : (b n : ℕ) (s : Bytes) → Lacks b s → Lacks b (drop n s)
Lacks-drop b zero s h = h
Lacks-drop b (suc n) [] h = h
Lacks-drop b (suc n) (c ∷ cs) h = Lacks-drop b n cs (ground (arith, h))
