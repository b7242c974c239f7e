-- ===== src/Common/Map.antt =====
-- `BTreeMap` and `HashMap` with peer or group ids as keys: a list of entries in key order, as a
-- `BTreeMap` iterates. A `HashMap` iterates in no stated order, for which this one stands.
use Prim.Native.Nat.{ℕ, ◌<◌, ◌≤◌}
use mathlib.Core.Path.{◌≡◌, refl}
use mathlib.Core.Bool.{Bool}
use mathlib.Core.Option.{Option, none, some}
use mathlib.Core.List.{List, [], ◌∷◌}
use native.Mathlib.Omega.{arith}
use p2parchiver.Common.Test.{ltb, ◌==◌, if◌then◌else◌, is_some}

abbrev pub Map {ℓ} : Type ℓ → Type ℓ
Map V = List (ℕ × V)

module _ {ℓ} {V : Type ℓ} where
  abbrev pub get : ℕ → Map V → Option V
  get k [] = none
  get k ((j, v) ∷ m) = if j == k then some v else get k m

  abbrev pub contains : ℕ → Map V → Bool
  contains k m = is_some (get k m)

  unfoldable pub insert : ℕ → V → Map V → Map V
  insert k v [] = (k, v) ∷ []
  insert k v ((j, w) ∷ m) =
      let rest = insert k v m in
      if j == k then (k, v) ∷ m else if ltb k j then (k, v) ∷ (j, w) ∷ m else (j, w) ∷ rest

  unfoldable pub remove : ℕ → Map V → Map V
  remove k [] = []
  remove k ((j, v) ∷ m) = let rest = remove k m in if j == k then rest else (j, v) ∷ rest

  -- The entries whose key and value pass the test, as `retain` keeps them.
  unfoldable pub retain : (ℕ → V → Bool) → Map V → Map V
  retain p [] = []
  retain p ((j, v) ∷ m) = let rest = retain p m in if p j v then (j, v) ∷ rest else rest

  -- A write to the value at a key, where the key is held.
  unfoldable pub modify : ℕ → (V → V) → Map V → Map V
  modify k f [] = []
  modify k f ((j, v) ∷ m) = (j, if j == k then f v else v) ∷ modify k f m

  -- The values in key order.
  abbrev pub values : Map V → List V
  values [] = []
  values ((j, v) ∷ m) = v ∷ values m

module _ {ℓ} {V : Type ℓ} where
  -- A test on the key alone.
  pub get-retain :
      (p : ℕ → Bool) (k : ℕ) (m : Map V)
      → get k (retain (λ j v. p j) m) ≡ (if p k then get k m else none)
  unfolding retain
  get-retain p k [] = ground arith
  get-retain p k ((i, w) ∷ m) = ground (arith, get-retain p k m)

  pub get-insert :
      (k j : ℕ) (v : V) (m : Map V) → get j (insert k v m) ≡ (if k == j then some v else get j m)
  unfolding insert
  get-insert k j v [] = refl
  get-insert k j v ((i, w) ∷ m) = ground (arith, get-insert k j v m)

  pub get-remove : (k j : ℕ) (m : Map V) → get j (remove k m) ≡ (if k == j then none else get j m)
  unfolding remove
  get-remove k j [] = ground arith
  get-remove k j ((i, w) ∷ m) = ground (arith, get-remove k j m)

  abbrev pub map_if : Bool → (V → V) → Option V → Option V
  map_if b f none = none
  map_if b f (some v) = some (if b then f v else v)

  pub get-modify :
      (k j : ℕ) (f : V → V) (m : Map V) → get j (modify k f m) ≡ map_if (k == j) f (get j m)
  unfolding modify
  get-modify k j f [] = refl
  get-modify k j f ((i, w) ∷ m) = ground (arith, get-modify k j f m)

  -- Every key lies above `b`.
  abbrev pub Above : ℕ → Map V → Type 0
  Above b [] = Unit {0}
  Above b ((j, v) ∷ m) = (b < j) × Above b m

  -- Keys strictly ascend.
  abbrev pub IsSorted : Map V → Type 0
  IsSorted [] = Unit {0}
  IsSorted ((j, v) ∷ m) = Above j m × IsSorted m

  Above-mono : (a b : ℕ) (m : Map V) → a < b → Above b m → Above a m
  Above-mono a b [] h s = tt
  Above-mono a b ((j, v) ∷ m) h s = (omega arith, Above-mono a b m h s.1)

  insert-Above : (b k : ℕ) (v : V) (m : Map V) → b < k → Above b m → Above b (insert k v m)
  unfolding insert
  insert-Above b k v [] h s = (h, tt)
  insert-Above b k v ((j, w) ∷ m) h s = ground (arith, insert-Above b k v m h s.1)

  pub insert-IsSorted : (k : ℕ) (v : V) (m : Map V) → IsSorted m → IsSorted (insert k v m)
  unfolding insert
  insert-IsSorted k v [] s = (tt, tt)
  insert-IsSorted k v ((j, w) ∷ m) s =
      ground (arith, insert-IsSorted k v m s.1, insert-Above j k v m, Above-mono k j m)

  remove-Above : (b k : ℕ) (m : Map V) → Above b m → Above b (remove k m)
  unfolding remove
  remove-Above b k [] s = tt
  remove-Above b k ((j, w) ∷ m) s = ground (arith, remove-Above b k m s.1)

  pub remove-IsSorted : (k : ℕ) (m : Map V) → IsSorted m → IsSorted (remove k m)
  unfolding remove
  remove-IsSorted k [] s = tt
  remove-IsSorted k ((j, w) ∷ m) s = ground (arith, remove-IsSorted k m s.1, remove-Above j k m s.0)

  pub get-Above : (b k : ℕ) (m : Map V) → Above b m → k ≤ b → get k m ≡ none
  get-Above b k [] s h = refl
  get-Above b k ((j, v) ∷ m) s h = ground (arith, get-Above b k m s.1)

  retain-Above : (b : ℕ) (p : ℕ → V → Bool) (m : Map V) → Above b m → Above b (retain p m)
  unfolding retain
  retain-Above b p [] s = tt
  retain-Above b p ((j, w) ∷ m) s = ground (arith, retain-Above b p m s.1)

  pub retain-IsSorted : (p : ℕ → V → Bool) (m : Map V) → IsSorted m → IsSorted (retain p m)
  unfolding retain
  retain-IsSorted p [] s = tt
  retain-IsSorted p ((j, w) ∷ m) s = ground (arith, retain-IsSorted p m s.1, retain-Above j p m s.0)
