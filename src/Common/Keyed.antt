-- ===== src/Common/Keyed.antt =====
-- A `HashMap` with byte strings as keys: a list of entries, at most one of a key after `insert`.
use mathlib.Core.Path.{◌≡◌, refl}
use mathlib.Core.Bool.{Bool}
use mathlib.Core.Option.{Option, none, some}
use mathlib.Core.List.{List, [], ◌∷◌}
use Prim.Native.Nat.{◌≤◌, ◌+◌}
use native.Mathlib.Omega.{arith}
use p2parchiver.Common.Test.{if◌then◌else◌, is_some}
use p2parchiver.Common.Lists.{length}
use p2parchiver.Common.Bytes.{Bytes, bytes_eq, bytes_eq_sound, bytes_eq_refl}

abbrev pub Keyed {ℓ} : Type ℓ → Type ℓ
Keyed V = List (Bytes × V)

module _ {ℓ} {V : Type ℓ} where
  abbrev pub find : Bytes → Keyed V → Option V
  find k [] = none
  find k ((j, v) ∷ m) = if bytes_eq j k then some v else find k m

  abbrev pub holds : Bytes → Keyed V → Bool
  holds k m = is_some (find k m)

  unfoldable pub erase : Bytes → Keyed V → Keyed V
  erase k [] = []
  erase k ((j, v) ∷ m) = let rest = erase k m in if bytes_eq j k then rest else (j, v) ∷ rest

  unfoldable pub put : Bytes → V → Keyed V → Keyed V
  put k v m = (k, v) ∷ erase k m

  -- A write to the value at a key, where the key is held.
  unfoldable pub modify : Bytes → (V → V) → Keyed V → Keyed V
  modify k f [] = []
  modify k f ((j, v) ∷ m) = (j, if bytes_eq j k then f v else v) ∷ modify k f m

  -- The entries whose value passes the test, as `retain` keeps them.
  unfoldable pub keep : (V → Bool) → Keyed V → Keyed V
  keep p [] = []
  keep p ((j, v) ∷ m) = let rest = keep p m in if p v then (j, v) ∷ rest else rest

module _ {ℓ} {V : Type ℓ} where
  pub length-erase : (k : Bytes) (m : Keyed V) → length (erase k m) ≤ length m
  unfolding erase
  length-erase k [] = omega arith
  length-erase k ((j, v) ∷ m) = ground (arith, length-erase k m)

  pub length-keep : (p : V → Bool) (m : Keyed V) → length (keep p m) ≤ length m
  unfolding keep
  length-keep p [] = omega arith
  length-keep p ((j, v) ∷ m) = ground (arith, length-keep p m)

  pub length-put : (k : Bytes) (v : V) (m : Keyed V) → length (put k v m) ≤ length m + 1
  unfolding put
  length-put k v m = ground (arith, length-erase k m)

  pub find-erase :
      (k j : Bytes) (m : Keyed V) → find j (erase k m) ≡ (if bytes_eq k j then none else find j m)
  unfolding erase
  find-erase k j [] = ground arith
  find-erase k j ((i, v) ∷ m) = ground (
    arith,
    find-erase k j m,
    bytes_eq_sound i k,
    bytes_eq_sound i j,
    bytes_eq_sound k j,
    bytes_eq_refl j,
    bytes_eq_refl k,
  )

  pub find-put :
      (k j : Bytes) (v : V) (m : Keyed V)
      → find j (put k v m) ≡ (if bytes_eq k j then some v else find j m)
  unfolding put
  find-put k j v m = ground (arith, find-erase k j m)

  abbrev pub map_if : Bool → (V → V) → Option V → Option V
  map_if b f none = none
  map_if b f (some v) = some (if b then f v else v)

  pub find-modify :
      (k j : Bytes) (f : V → V) (m : Keyed V)
      → find j (modify k f m) ≡ map_if (bytes_eq k j) f (find j m)
  unfolding modify
  find-modify k j f [] = refl
  find-modify k j f ((i, v) ∷ m) = ground (
    arith,
    find-modify k j f m,
    bytes_eq_sound i k,
    bytes_eq_sound i j,
    bytes_eq_sound k j,
    bytes_eq_refl j,
    bytes_eq_refl k,
  )
