-- ===== src/Groups/Store/Loaded.antt =====
-- The standings that are read back from their rows, and what the caches take from them: store.rs,
-- load_standings, and members.rs.
use p2parchiver.Common.{
  ◌≤◌, ◌≡◌, refl, sym, ap, ◌∙◌, inl, inr, true, Option, none, some, [], ◌∷◌, ◌++◌, arith, ◌==◌,
  if◌then◌else◌, ==_iff, ==_refl, Bool-cases, All,
}
use p2parchiver.Common.Map
use p2parchiver.Common.Map.{Map}
use p2parchiver.Common.Result.{Result, ok, err, Result-cases}
use p2parchiver.Platform.{Platform, PeerId, Cbor}
use p2parchiver.Groups.Standing.{
  Standing, StandingBody, StandingSet, StandingError, Position, unanswered, «in», out, is_departure,
  next_seq, Held,
}
use p2parchiver.Groups.Standing
use p2parchiver.Groups.Members.{Members, Member}
use p2parchiver.Groups.Store.Tables.{StandingRow}
use p2parchiver.Groups.Store.Tables.{load_row, load_rows, held_of}
use mathlib.Core.Path.{ap₂}
use p2parchiver.Groups.Members.{digest_input, said_bytes, name_from, standings_digest}
use p2parchiver.Groups.Standing.{username_of, name_of}

-- Every member stands under its own id.
abbrev pub IsKeyed : Members → Type 0
IsKeyed m = All (λ x. x.1.peer ≡ x.0) m

abbrev pub Agree : StandingSet → StandingSet → Members → Type 0
Agree s s' m = (p : PeerId) → Map.contains p m ≡ true → Map.get p s ≡ Map.get p s'

Agree-tail :
    (s s' : StandingSet) (q : PeerId) (x : Member) (m : Members)
    → Agree s s' ((q, x) ∷ m)
    → Agree s s' m
Agree-tail s s' q x m agree p h = agree p (ground (arith, h))

-- Sets that agree on the members name them alike.
pub name_from-Agree :
    (s s' : StandingSet) (m : Members) → IsKeyed m → Agree s s' m → name_from s m ≡ name_from s' m
unfolding name_from
name_from-Agree s s' [] keyed agree = refl
name_from-Agree s s' ((q, x) ∷ m) keyed agree =
    ap₂ (λ o rest. (q, record x { username = name_of o }) ∷ rest)
      (ap (λ p. Map.get p s) keyed.0
        ∙ agree q (ground (arith, ==_refl q))
        ∙ ap (λ p. Map.get p s') (sym keyed.0))
      (name_from-Agree s s' m keyed.1 (Agree-tail s s' q x m agree))

module _ (X : Platform) where
  digest_input-Agree :
      (s s' : StandingSet) (m : Members)
      → IsKeyed m
      → Agree s s' m
      → digest_input X s m ≡ digest_input X s' m
  unfolding digest_input
  digest_input-Agree s s' [] keyed agree = refl
  digest_input-Agree s s' ((q, x) ∷ m) keyed agree =
      ap₂ (λ o rest. said_bytes (X.to_bytes x.peer) o ++ rest)
        (ap (λ p. Map.get p s) keyed.0
          ∙ agree q (ground (arith, ==_refl q))
          ∙ ap (λ p. Map.get p s') (sym keyed.0))
        (digest_input-Agree s s' m keyed.1 (Agree-tail s s' q x m agree))

  -- Sets that agree on the members have the same digest.
  pub digest-Agree :
      (s s' : StandingSet) (m : Members)
      → IsKeyed m
      → Agree s s' m
      → standings_digest X s m ≡ standings_digest X s' m
  unfolding standings_digest
  digest-Agree s s' m keyed agree =
      ap (λ b. X.sha256 (2 ∷ b)) (digest_input-Agree s s' m keyed agree)

-- Naming changes neither who is a member nor under which id.
pub name_from-IsKeyed : (s : StandingSet) (m : Members) → IsKeyed m → IsKeyed (name_from s m)
unfolding name_from
name_from-IsKeyed s [] keyed = tt
name_from-IsKeyed s ((q, x) ∷ m) keyed = (keyed.0, name_from-IsKeyed s m keyed.1)

pub contains-name_from :
    (s : StandingSet) (m : Members) (p : PeerId) → Map.contains p (name_from s m) ≡ Map.contains p m
unfolding name_from
contains-name_from s [] p = refl
contains-name_from s ((q, x) ∷ m) p = ground (arith, contains-name_from s m p)

module _ (X : Platform) (cbor : Cbor StandingBody) where
  abbrev pub decoded_row : StandingRow → Result StandingError StandingBody → Option Held
  decoded_row row (ok body) = some (held_of row body)
  decoded_row row (err e) = none

  abbrev pub loaded : Option StandingRow → Option Held
  loaded none = none
  loaded (some row) = decoded_row row (Standing.decode X cbor row.standing)

  -- What the row of a peer stands for, or none for a row that does not decode.
  abbrev pub held_at : Map StandingRow → PeerId → Option Held
  held_at rows p = loaded (Map.get p rows)

  abbrev or_else : Option Held → Option Held → Option Held
  or_else none o = o
  or_else (some h) o = some h

  or_else-none : (o : Option Held) → or_else o none ≡ o
  or_else-none none = refl
  or_else-none (some h) = refl

  load_row-get :
      (q : PeerId) (row : StandingRow) (set : StandingSet) (p : PeerId)
      → Map.get q set ≡ none
      → Map.get p (load_row X cbor q row (Standing.decode X cbor row.standing) set)
        ≡ (if q == p then decoded_row row (Standing.decode X cbor row.standing) else Map.get p set)
  unfolding Standing.insert
  load_row-get q row set p fresh = elim (Result-cases (Standing.decode X cbor row.standing)) [
    | inl (e, failed) ↦ ground (arith, ==_iff q p)
    | inr (body, decoded) ↦ ground (arith, Map.get-insert q p (held_of row body) set, ==_iff q p)
  ]

  last_of :
      (q : PeerId) (row : StandingRow) (rows : Map StandingRow) (set : StandingSet) (p : PeerId)
      → Map.get q set ≡ none
      → (p ≤ q → Map.get p rows ≡ none)
      → or_else
          (held_at rows p)
          (Map.get p (load_row X cbor q row (Standing.decode X cbor row.standing) set))
        ≡ or_else (held_at ((q, row) ∷ rows) p) (Map.get p set)
  last_of q row rows set p empty above = elim (Bool-cases (q == p)) [
    | inl same ↦ elim (Result-cases (Standing.decode X cbor row.standing)) [
      | inl (e, failed) ↦ ground (arith, load_row-get q row set p empty, ==_iff q p, above)
      | inr (body, decoded) ↦ ground (arith, load_row-get q row set p empty, ==_iff q p, above)
    ]
    | inr other ↦ ground (arith, load_row-get q row set p empty)
  ]

  load_rows-get :
      (rows : Map StandingRow) (set : StandingSet) (p : PeerId)
      → Map.IsSorted rows
      → ((q : PeerId) → Map.contains q rows ≡ true → Map.get q set ≡ none)
      → Map.get p (load_rows X cbor rows set) ≡ or_else (held_at rows p) (Map.get p set)
  unfolding load_rows
  load_rows-get [] set p sorted fresh = refl
  load_rows-get ((q, row) ∷ rows) set p sorted fresh =
      let set' = load_row X cbor q row (Standing.decode X cbor row.standing) set in
      let empty = fresh q (ground (arith, ==_refl q)) in
      let later : Map.get p (load_rows X cbor rows set')
          ≡ or_else (held_at rows p) (Map.get p set') =
        load_rows-get rows set' p sorted.1 (λ k h.
          ground
            (arith, load_row-get q row set k empty, Map.get-Above q k rows sorted.0, fresh k)) in
      later ∙ last_of q row rows set p empty (Map.get-Above q p rows sorted.0)

  -- The set that is read back from sorted rows holds for each peer what its row stands for.
  pub load_rows-held :
      (rows : Map StandingRow) (p : PeerId)
      → Map.IsSorted rows
      → Map.get p (load_rows X cbor rows []) ≡ held_at rows p
  load_rows-held rows p sorted =
      load_rows-get rows [] p sorted (λ q h. refl) ∙ or_else-none (held_at rows p)
