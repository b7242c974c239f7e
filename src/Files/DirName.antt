-- ===== src/Files/DirName.antt =====
-- The name of a directory for a group: dirname.rs.
use p2parchiver.Common.{
  ℕ, zero, suc, Bool, false, not, ◌&&◌, ◌||◌, Option, none, some, [], ◌∷◌, ltb, leb, ◌==◌,
  if◌then◌else◌, length, get_elem?, take, drop,
}
use p2parchiver.Common.Bytes.{Bytes, bytes_eq}
use p2parchiver.Platform.{Platform}
use p2parchiver.Files.Path.{slash, point, backslash_byte, trim_matches}

abbrev pub max_dirname : ℕ
max_dirname = 128

abbrev underscore : ℕ
underscore = 95

abbrev pub is_unsafe : ℕ → Bool
is_unsafe b = b == slash || b == backslash_byte || ltb b 32 || b == 127

-- A control character in two bytes begins here.
abbrev pub leads : ℕ → Bytes → Bool
leads b [] = false
leads b (c ∷ cs) = b == 194 && leb 128 c && leb c 159

-- The loop of `sanitize` over the characters.
unfoldable pub replaced : Bytes → Bytes
replaced [] = []
replaced (b ∷ bs) =
    let rest = replaced bs in
    if is_unsafe b
    then underscore ∷ rest
    else if leads b bs
    then underscore ∷ drop 1 rest
    else b ∷ rest

abbrev boundary_before : Option ℕ → Bool
boundary_before none = false
boundary_before (some b) = not (leb 128 b && leb b 191)

-- `is_char_boundary`
abbrev pub is_char_boundary : Bytes → ℕ → Bool
is_char_boundary s k = k == 0 || k == length s || boundary_before (get_elem? s k)

-- `while cut > 0 && !result.is_char_boundary(cut)`
unfoldable pub cut_at : Bytes → ℕ → ℕ
cut_at s zero = 0
cut_at s (suc k) = let lower = cut_at s k in if is_char_boundary s (suc k) then suc k else lower

abbrev pub some_if_any : Bytes → Option Bytes
some_if_any [] = none
some_if_any (b ∷ bs) = some (b ∷ bs)

module _ (X : Platform) where
  abbrev pub round : Bytes → Bytes
  round s = trim_matches point (X.trim s)

  -- The loop of `trim_edges`, with fuel for every byte.
  unfoldable pub trim_rounds : ℕ → Bytes → Bytes
  trim_rounds zero s = s
  trim_rounds (suc n) s =
      let rest = trim_rounds n (round s) in if bytes_eq (round s) s then s else rest

  -- `trim_edges`
  abbrev pub trim_edges : Bytes → Bytes
  trim_edges s = trim_rounds (suc (length s)) s

  abbrev pub shortened : Bytes → Option Bytes
  shortened r =
      if ltb max_dirname (length r)
      then some_if_any (trim_edges (take (cut_at r max_dirname) r))
      else some r

  abbrev pub then_shortened : Option Bytes → Option Bytes
  then_shortened none = none
  then_shortened (some r) = shortened r

  -- `sanitize`
  unfoldable pub sanitize : Bytes → Option Bytes
  sanitize name = then_shortened (some_if_any (trim_edges (replaced name)))
