-- ===== src/Groups/Store/Numbered.antt =====
-- The rows of `group_entries` of one group, numbered from zero without a gap: store.rs, write_entries.
use p2parchiver.Common.{
  ℕ, ◌+◌, ◌≤◌, ◌≡◌, refl, sym, ap, ◌∙◌, none, List, [], ◌∷◌, ◌++◌, append_assoc, append-nil, arith,
  length, length-append,
}
use p2parchiver.Common.Map
use p2parchiver.Common.Map.{Map}
use p2parchiver.Groups.Chain.Types.{Entry}
use p2parchiver.Groups.Store.Tables.{insert_entries, insert_entry}

abbrev pub enumerate : ℕ → List Entry → Map Entry
enumerate n [] = []
enumerate n (e ∷ es) = (n, e) ∷ enumerate (n + 1) es

pub values-enumerate : (n : ℕ) (es : List Entry) → Map.values (enumerate n es) ≡ es
values-enumerate n [] = refl
values-enumerate n (e ∷ es) = ap (λ xs. e ∷ xs) (values-enumerate (n + 1) es)

get-enumerate_past :
    (n k : ℕ) (es : List Entry) → n + length es ≤ k → Map.get k (enumerate n es) ≡ none
get-enumerate_past n k [] h = refl
get-enumerate_past n k (e ∷ es) h = ground (arith, get-enumerate_past (n + 1) k es)

insert-enumerate :
    (n k : ℕ) (es : List Entry) (e : Entry)
    → k ≡ n + length es
    → Map.insert k e (enumerate n es) ≡ enumerate n (es ++ e ∷ [])
unfolding Map.insert
insert-enumerate n k [] e h = ground arith
insert-enumerate n k (x ∷ es) e h = ground (arith, insert-enumerate (n + 1) k es e)

-- Entries written after the last one are numbered on.
pub insert_entries-enumerate :
    (k : ℕ) (es fs : List Entry)
    → k ≡ length es
    → insert_entries k fs (enumerate 0 es) ≡ enumerate 0 (es ++ fs)
unfolding insert_entries
insert_entries-enumerate k es [] h = ap (enumerate 0) (sym (append-nil es))
insert_entries-enumerate k es (f ∷ fs) h =
    ap (insert_entries (k + 1) fs) (written)
    ∙ insert_entries-enumerate (k + 1) (es ++ f ∷ []) fs
        (omega (arith, h, length-append es (f ∷ [])))
    ∙ ap (enumerate 0) (append_assoc es (f ∷ []) fs)
  where
    written : insert_entry k f (enumerate 0 es) ≡ enumerate 0 (es ++ f ∷ [])
    written = ground (arith, get-enumerate_past 0 k es, insert-enumerate 0 k es f)
