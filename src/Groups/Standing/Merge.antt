-- ===== src/Groups/Standing/Merge.antt =====
-- What a standing set holds after a batch of statements: standing.rs, `StandingSet::insert`.
use mathlib.Core.List.{Perm, Permᴰ}
use mathlib.Core.Logic.{∥∥₁_elim}
use mathlib.Core.Path.{ap₂}
use native.Mathlib.Decide.{ℕ_discrete}
use p2parchiver.Common.{
  ◌≢◌, sym, ℕ, ◌≡◌, ◌∙◌, inl, inr, refl, ap, Option, none, some, List, [], ◌∷◌, arith, ◌==◌,
  if◌then◌else◌, Bool-cases,
}
use p2parchiver.Common.Bytes.{Bytes}
use p2parchiver.Common.Map
use p2parchiver.Common.Map.{Map}
use p2parchiver.Platform.{PeerId}
use p2parchiver.Groups.Standing.{Held, StandingSet, rank, wins, insert}
use p2parchiver.Groups.Standing.Order.{wins_trans, wins_total, wins_asymm}

abbrev pub Rank : Type 0
Rank = ℕ × Bytes

-- The seq and the signed bytes held for a peer.
abbrev pub rank_of : Option Held → Option Rank
rank_of none = none
rank_of (some h) = some (rank h)

abbrev pub rank_at : PeerId → StandingSet → Option Rank
rank_at p set = rank_of (Map.get p set)

-- The set after a batch of statements, each handed to `insert` in turn.
unfoldable pub insert_all : StandingSet → List (PeerId × Held) → StandingSet
insert_all set [] = set
insert_all set ((p, h) ∷ rest) = insert_all (insert p h set).0 rest

abbrev better : Rank → Rank → Rank
better old new = if wins new old then new else old

abbrev best : Option Rank → Rank → Option Rank
best none new = some new
best (some old) new = some (better old new)

abbrev best_one : PeerId → Option Rank → PeerId × Held → Option Rank
best_one p o (q, h) = if q == p then best o (rank h) else o

best_all : PeerId → Option Rank → List (PeerId × Held) → Option Rank
best_all p o [] = o
best_all p o (x ∷ rest) = best_all p (best_one p o x) rest

rank_at-insert_self :
    (p : PeerId) (h : Held) (set : StandingSet)
    → rank_at p (insert p h set).0 ≡ best (rank_at p set) (rank h)
unfolding insert
rank_at-insert_self p h set = ground (arith, Map.get-insert p p h set)

rank_at-insert_ne :
    (p q : PeerId) (h : Held) (set : StandingSet)
    → q ≢ p
    → rank_at p (insert q h set).0 ≡ rank_at p set
unfolding insert
rank_at-insert_ne p q h set ne = ground (arith, Map.get-insert q p h set)

-- One insertion moves the rank of its own peer to the better one, and no other.
pub rank_at-insert :
    (p q : PeerId) (h : Held) (set : StandingSet)
    → rank_at p (insert q h set).0
      ≡ (if q == p then best (rank_at p set) (rank h) else rank_at p set)
rank_at-insert p q h set = elim (ℕ_discrete q p) [
  | yes same ↦ rw same (ground (arith, rank_at-insert_self p h set))
  | no ne ↦ ground (arith, rank_at-insert_ne p q h set ne)
]

better_comm : (r s : Rank) → better r s ≡ better s r
better_comm r s = elim (Bool-cases (wins s r)) [
  | inl win ↦ rw (win, wins_asymm s r win)
  | inr lose ↦ elim (Bool-cases (wins r s)) [
    | inl back ↦ rw (lose, back)
    | inr tie ↦ rw (lose, tie) (wins_total r s tie lose)
  ]
]

better-right_comm : (o r s : Rank) → better (better o r) s ≡ better (better o s) r
better-right_comm o r s = ground (
  arith,
  wins_trans s r o,
  wins_trans r s o,
  wins_trans s o r,
  wins_trans r o s,
  wins_asymm s r,
  wins_asymm s o,
  wins_asymm r o,
  wins_total r s,
  wins_total s o,
  wins_total r o,
)

best-right_comm : (o : Option Rank) (r s : Rank) → best (best o r) s ≡ best (best o s) r
best-right_comm none r s = ap some (better_comm r s)
best-right_comm (some o) r s = ap some (better-right_comm o r s)

best_one_comm :
    (p : PeerId) (o : Option Rank) (x y : PeerId × Held)
    → best_one p (best_one p o x) y ≡ best_one p (best_one p o y) x
best_one_comm p o (q, h) (q', h') = elim (Bool-cases (q == p)) [
  | inl e ↦ elim (Bool-cases (q' == p)) [
    | inl e' ↦ rw (e, e') (best-right_comm o (rank h) (rank h'))
    | inr ne' ↦ rw (e, ne')
  ]
  | inr ne ↦ rw ne
]

best_all-perm :
    (p : PeerId) (o : Option Rank) {xs ys : List (PeerId × Held)}
    → Permᴰ xs ys
    → best_all p o xs ≡ best_all p o ys
unfolding best_all
best_all-perm p o Permᴰ.nil = refl
best_all-perm p o (Permᴰ.cons {a = x} {l₂ = l} e t) =
    best_all-perm p (best_one p o x) t ∙ ap (λ y. best_all p (best_one p o y) l) e
best_all-perm p o (Permᴰ.swap {a = x} {b = y} {l = l} e f) =
    ap (λ r. best_all p r l) (best_one_comm p o x y)
    ∙ ap₂ (λ u v. best_all p (best_one p (best_one p o u) v) l) f e
best_all-perm p o (Permᴰ.trans t u) = best_all-perm p o t ∙ best_all-perm p o u

rank_at-insert_all :
    (p : PeerId) (set : StandingSet) (xs : List (PeerId × Held))
    → rank_at p (insert_all set xs) ≡ best_all p (rank_at p set) xs
unfolding insert_all best_all
rank_at-insert_all p set [] = refl
rank_at-insert_all p set ((q, h) ∷ rest) =
    rank_at-insert_all p (insert q h set).0 rest
    ∙ ap (λ o. best_all p o rest) (rank_at-insert p q h set)

Rank-set : IsSet (Option Rank)
Rank-set = hlevel

-- Whatever the order in which a batch of statements arrives, and whatever the set held, each peer
-- ends with the same seq and the same signed bytes.
pub insert_all-perm :
    (p : PeerId) (set : StandingSet) (xs ys : List (PeerId × Held))
    → Perm xs ys
    → rank_at p (insert_all set xs) ≡ rank_at p (insert_all set ys)
insert_all-perm p set xs ys t =
    rank_at-insert_all p set xs
    ∙ ∥∥₁_elim t (Rank-set _ _) (best_all-perm p (rank_at p set))
    ∙ sym (rank_at-insert_all p set ys)
