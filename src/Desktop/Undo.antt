-- ===== src/Desktop/Undo.antt =====
-- crates/ac-desktop/src/selection.rs: the decisions of the Sort tab that can be taken back. The stack
-- is oldest first; the lock around it makes each operation one step.
use p2parchiver.Common.{
  ℕ, ◌≤◌, ◌≡◌, refl, sym, ap, subst, inl, inr, Bool, Option, none, some, List, [], ◌∷◌, ◌++◌,
  append_assoc, arith, ltb, if◌then◌else◌, Bool-cases, length, take, drop, length-append,
}
use p2parchiver.Common.Bytes.{Bytes}

abbrev pub undo_depth : ℕ
undo_depth = 5

pub record Undoable : Type 0 where
  pub hashes : List Bytes
  pub name : Bytes
  pub dropped : Bool

-- `Undoable::bulk`
abbrev pub bulk : Undoable → Bool
bulk u = ltb 1 (length u.hashes)

-- `push`, then `remove(0)` onto what fell off when the stack is too deep.
abbrev pub pushed : List Undoable → List Undoable → Undoable → List Undoable × List Undoable
pushed fell_off undo action =
    let stack = undo ++ action ∷ [] in
    if ltb undo_depth (length stack)
    then (drop 1 stack, fell_off ++ take 1 stack)
    else (stack, fell_off)

-- `Selection::did`: the new stack, and what fell off it.
unfoldable pub did : List Undoable → Undoable → List Undoable × List Undoable
did undo action = if bulk action then pushed undo [] action else pushed [] undo action

-- `Vec::pop`
abbrev pub init_last : {A : Type 0} → A → List A → List A × A
init_last x [] = ([], x)
init_last x (y ∷ ys) = let (front, end) = init_last y ys in (x ∷ front, end)

-- `Selection::take_back`
unfoldable pub take_back : List Undoable → List Undoable × Option Undoable
take_back [] = ([], none)
take_back (u ∷ us) = let (front, end) = init_last u us in (front, some end)

take_back-append :
    (undo : List Undoable) (action : Undoable) → (take_back (undo ++ action ∷ [])).1 ≡ some action
unfolding take_back
take_back-append [] action = refl
take_back-append (u ∷ us) action = ap some (init_last-append u us action)
  where
    init_last-append :
        (x : Undoable) (xs : List Undoable) (y : Undoable) → (init_last x (xs ++ y ∷ [])).1 ≡ y
    init_last-append x [] y = refl
    init_last-append x (z ∷ zs) y = init_last-append z zs y

-- What `pushed` keeps, whatever had fallen off before.
abbrev Kept : List Undoable → List Undoable → Undoable → List Undoable × List Undoable → Type 0
Kept fell_off undo action (stack, fell) =
    (length stack ≤ undo_depth)
    × (fell ++ stack ≡ fell_off ++ (undo ++ action ∷ []))
    × ((take_back stack).1 ≡ some action)

pushed-Kept :
    (fell_off undo : List Undoable) (action : Undoable)
    → length undo ≤ undo_depth
    → Kept fell_off undo action (pushed fell_off undo action)
pushed-Kept fell_off [] action h = (omega arith, refl, take_back-append [] action)
pushed-Kept fell_off (u ∷ us) action h =
    elim (Bool-cases (ltb undo_depth (length (u ∷ (us ++ action ∷ []))))) [
      | inl deep ↦
          subst
            (λ b. Kept fell_off (u ∷ us) action (
              if b
              then (us ++ action ∷ [], fell_off ++ u ∷ [])
              else (u ∷ (us ++ action ∷ []), fell_off)))
            (sym deep)
            (
              omega (arith, length-append us (action ∷ [])),
              append_assoc fell_off (u ∷ []) (us ++ action ∷ []),
              take_back-append us action,
            )
      | inr fits ↦
          subst
            (λ b. Kept fell_off (u ∷ us) action (
              if b
              then (us ++ action ∷ [], fell_off ++ u ∷ [])
              else (u ∷ (us ++ action ∷ []), fell_off)))
            (sym fits) (ground (arith, fits), refl, take_back-append (u ∷ us) action)
    ]

-- Remembering a decision keeps at most five and loses none: what falls off followed by what is kept
-- is what was kept before followed by the new decision, and the next one taken back is that decision.
pub did_lem :
    (undo : List Undoable) (action : Undoable)
    → length undo ≤ undo_depth
    → (length (did undo action).0 ≤ undo_depth)
      × ((did undo action).1 ++ (did undo action).0 ≡ undo ++ action ∷ [])
      × ((take_back (did undo action).0).1 ≡ some action)
unfolding did
did_lem undo action h = elim (Bool-cases (bulk action)) [
  | inl all ↦
      subst (λ b. Kept [] undo action (if b then pushed undo [] action else pushed [] undo action))
        (sym all) (pushed-Kept undo [] action (omega arith))
  | inr one ↦
      subst (λ b. Kept [] undo action (if b then pushed undo [] action else pushed [] undo action))
        (sym one) (pushed-Kept [] undo action h)
]
