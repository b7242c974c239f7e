-- ===== src/Files/Path.antt =====
-- Paths inside a group: path.rs. A text is its UTF-8 bytes, and a `char` the bytes that it takes.
use p2parchiver.Common.{
  ℕ, Bool, false, ◌&&◌, ◌||◌, Option, none, some, List, [], ◌∷◌, ◌++◌, ltb, leb, ◌==◌,
  if◌then◌else◌, length, any_of,
}
use p2parchiver.Common.Bytes.{Bytes, bytes_eq}
use p2parchiver.Common.Result.{Result, ok, err, ◌>>=◌, ◌>>◌, fail_if}

abbrev pub max_component : ℕ
max_component = 255

abbrev pub max_path : ℕ
max_path = 1024

pub record RelPath : Type 0 where
  pub text : Bytes

pub data PathError : Type 0 where
  empty absolute empty_component backslash : PathError
  traversal not_utf8 control component_too_long : Bytes → PathError
  too_long : ℕ → PathError

abbrev pub slash : ℕ
slash = 47

abbrev pub backslash_byte : ℕ
backslash_byte = 92

abbrev pub point : ℕ
point = 46

abbrev pub has : ℕ → Bytes → Bool
has b = any_of (λ c. c == b)

abbrev pub starts_with : ℕ → Bytes → Bool
starts_with b [] = false
starts_with b (c ∷ cs) = c == b

abbrev pub with_first : ℕ → List Bytes → List Bytes
with_first c [] = (c ∷ []) ∷ []
with_first c (x ∷ xs) = (c ∷ x) ∷ xs

-- `raw.split('/')`: at least one part.
unfoldable pub split : Bytes → List Bytes
split [] = [] ∷ []
split (c ∷ cs) = let parts = split cs in if c == slash then [] ∷ parts else with_first c parts

-- `char::is_control`: below 0x20 and 0x7f in one byte, 0x80 to 0x9f in two, the first of them 0xc2.
abbrev after_lead : ℕ → Bytes → Option Bytes → Option Bytes
after_lead b [] rest = rest
after_lead b (c ∷ cs) rest = if b == 194 && leb 128 c && leb c 159 then some (b ∷ c ∷ []) else rest

-- `component.chars().find(|c| c.is_control())`
unfoldable pub find_control : Bytes → Option Bytes
find_control [] = none
find_control (b ∷ bs) =
    let rest = find_control bs in
    if ltb b 32 || b == 127 then some (b ∷ []) else after_lead b bs rest

abbrev pub refuse_control : Option Bytes → Result PathError (Unit {0})
refuse_control none = ok tt
refuse_control (some c) = err (PathError.control c)

-- The body of the loop of `RelPath::parse`.
unfoldable pub check_component : Bytes → Result PathError (Unit {0})
check_component c =
    fail_if (bytes_eq c []) PathError.empty_component
    >> fail_if (bytes_eq c (point ∷ []) || bytes_eq c (point ∷ point ∷ [])) (PathError.traversal c)
    >> fail_if (ltb max_component (length c)) (PathError.component_too_long c)
    >> refuse_control (find_control c)

unfoldable pub check_components : List Bytes → Result PathError (Unit {0})
check_components [] = ok tt
check_components (c ∷ cs) = check_component c >>= λ done. check_components cs

-- `RelPath::parse`
unfoldable pub parse : Bytes → Result PathError RelPath
parse raw =
    fail_if (bytes_eq raw []) PathError.empty
    >> fail_if (ltb max_path (length raw)) (PathError.too_long (length raw))
    >> fail_if (has backslash_byte raw) PathError.backslash
    >> fail_if (starts_with slash raw) PathError.absolute
    >> check_components (split raw)
    >> ok (record { text = raw })

-- `parts.join("/")`
unfoldable pub join : List Bytes → Bytes
join [] = []
join (c ∷ []) = c
join (c ∷ d ∷ cs) = c ++ slash ∷ join (d ∷ cs)

-- `std::path::Component`; a name has its text, if it is UTF-8, and its text with replacements.
pub data Component : Type 0 where
  prefix root_dir cur_dir parent_dir : Component
  normal : Option Bytes → Bytes → Component

abbrev normal_name : Option Bytes → Bytes → Result PathError Bytes
normal_name none lossy = err (PathError.not_utf8 lossy)
normal_name (some text) lossy = ok text

abbrev part_of : Component → Result PathError Bytes
part_of (Component.normal text lossy) = normal_name text lossy
part_of Component.parent_dir = err (PathError.traversal (point ∷ point ∷ []))
part_of Component.cur_dir = err (PathError.traversal (point ∷ []))
part_of Component.root_dir = err PathError.absolute
part_of Component.prefix = err PathError.absolute

unfoldable pub parts_of : List Component → Result PathError (List Bytes)
parts_of [] = ok []
parts_of (c ∷ cs) = part_of c >>= λ p. parts_of cs >>= λ ps. ok (p ∷ ps)

-- `RelPath::from_fs`
unfoldable pub from_fs : List Component → Result PathError RelPath
from_fs cs = parts_of cs >>= λ parts. parse (join parts)

-- Whether a text begins with a path prefix is a matter of the platform that the code is built for:
-- `C:` is one on Windows, and Unix has none.
module _ (prefixed : Bytes → Bool) where
  -- `PathBuf::push`, on the components of a path: a part with a prefix, or a rooted one, replaces what
  -- was there. (On Windows a rooted one keeps the prefix; no part between slashes is rooted.)
  abbrev pub push_part : List Bytes → Bytes → List Bytes
  push_part dir c = if prefixed c || starts_with slash c then c ∷ [] else dir ++ c ∷ []

  unfoldable pub push_all : List Bytes → List Bytes → List Bytes
  push_all dir [] = dir
  push_all dir (c ∷ cs) = push_all (push_part dir c) cs

  -- `RelPath::join_under`
  unfoldable pub join_under : RelPath → List Bytes → List Bytes
  join_under p dir = push_all dir (split p.text)

abbrev last_from : Bytes → List Bytes → Bytes
last_from x [] = x
last_from x (y ∷ ys) = last_from y ys

abbrev last_part : List Bytes → Bytes
last_part [] = []
last_part (x ∷ xs) = last_from x xs

-- `RelPath::file_name`
unfoldable pub file_name : RelPath → Bytes
file_name p = last_part (split p.text)

unfoldable pub trim_start : ℕ → Bytes → Bytes
trim_start b [] = []
trim_start b (c ∷ cs) = let rest = trim_start b cs in if c == b then rest else c ∷ cs

abbrev pub trim_after : ℕ → Bytes → ℕ → Bytes
trim_after b [] c = if c == b then [] else c ∷ []
trim_after b (d ∷ ds) c = c ∷ d ∷ ds

unfoldable pub trim_end : ℕ → Bytes → Bytes
trim_end b [] = []
trim_end b (c ∷ cs) = trim_after b (trim_end b cs) c

-- `trim_matches` of one byte.
abbrev pub trim_matches : ℕ → Bytes → Bytes
trim_matches b s = trim_end b (trim_start b s)

abbrev under_trimmed : Bytes → Bytes → Result PathError RelPath
under_trimmed [] name = parse name
under_trimmed (d ∷ ds) name = parse ((d ∷ ds) ++ slash ∷ name)

-- `RelPath::under`
unfoldable pub under : Bytes → Bytes → Result PathError RelPath
under dir name = under_trimmed (trim_matches slash dir) name
