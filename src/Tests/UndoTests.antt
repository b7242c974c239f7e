-- ===== src/Tests/UndoTests.antt =====
-- Tests and instances for the decisions that can be taken back (crates/ac-desktop/src/selection.rs).
use p2parchiver.Common.{ℕ, ◌≤◌, ◌≡◌, refl, true, some, List, [], ◌∷◌, ◌++◌, arith, length}
use p2parchiver.Desktop.Undo.{Undoable, undo_depth, did, take_back, did_lem}

abbrev done : ℕ → Undoable
done n = record { hashes = (n ∷ []) ∷ []; name = n ∷ []; dropped = true }

abbrev five : List Undoable
five = done 1 ∷ done 2 ∷ done 3 ∷ done 4 ∷ done 5 ∷ []

sixth : did five (done 6) ≡ (done 2 ∷ done 3 ∷ done 4 ∷ done 5 ∷ done 6 ∷ [], done 1 ∷ [])
unfolding did
sixth = refl

did_lem_example :
    (length (did five (done 6)).0 ≤ undo_depth)
    × ((did five (done 6)).1 ++ (did five (done 6)).0 ≡ five ++ done 6 ∷ [])
    × ((take_back (did five (done 6)).0).1 ≡ some (done 6))
did_lem_example = did_lem five (done 6) (omega arith)
