-- ===== src/Groups/Members/Digest.antt =====
-- When two nodes agree on the standings digest: members.rs against the sets of standing.rs.
use mathlib.Core.List.{Perm}
use mathlib.Core.Path.{ap₂}
use p2parchiver.Common.{
  ◌≡◌, refl, sym, ap, ◌∙◌, ◌⊎◌, inl, inr, Option, none, some, List, [], ◌∷◌, ◌++◌, arith, All,
}
use p2parchiver.Common.Bytes.{Bytes}
use p2parchiver.Common.Map
use p2parchiver.Common.Map.{Map}
use p2parchiver.Platform.{Platform, PeerId, Cbor}
use p2parchiver.Groups.Standing.{Held, StandingBody, StandingSet, insert}
use p2parchiver.Groups.Standing.Merge.{insert_all, insert_all-perm, rank_of}
use p2parchiver.Groups.Members.{Members, said_bytes, spelled, digest_input, standings_digest}

get-insert-cases :
    (p q : PeerId) (h : Held) (set : StandingSet)
    → (Map.get p (insert q h set).0 ≡ Map.get p set) ⊎ (Map.get p (insert q h set).0 ≡ some h)
unfolding insert
get-insert-cases p q h set = ground (arith, Map.get-insert q p h set)

module _ (cbor : Cbor StandingBody) where
  -- The seq, position and name held are those that the signed bytes decode to.
  abbrev pub Decoded : Held → Type 0
  Decoded h =
      (b : StandingBody) × (cbor.from_reader h.standing.body ≡ some b)
      × (h.seq ≡ b.seq)
      × (h.position ≡ b.position)
      × (h.username ≡ b.username)

  abbrev DecodedAt : Option Held → Type 0
  DecodedAt none = Unit {0}
  DecodedAt (some h) = Decoded h

  abbrev pub AllDecoded : StandingSet → Type 0
  AllDecoded set = (p : PeerId) → DecodedAt (Map.get p set)

  insert-AllDecoded :
      (q : PeerId) (h : Held) (set : StandingSet)
      → Decoded h
      → AllDecoded set
      → AllDecoded (insert q h set).0
  insert-AllDecoded q h set d all p = elim (get-insert-cases p q h set) [
    | inl kept ↦ rw kept (all p)
    | inr new ↦ rw new d
  ]

  insert_all-AllDecoded :
      (set : StandingSet) (xs : List (PeerId × Held))
      → AllDecoded set
      → All (λ x. Decoded x.1) xs
      → AllDecoded (insert_all set xs)
  unfolding insert_all
  insert_all-AllDecoded set [] all d = all
  insert_all-AllDecoded set ((q, h) ∷ rest) all d =
      insert_all-AllDecoded (insert q h set).0 rest (insert-AllDecoded q h set d.0 all) d.1

  -- Of two decoded statements, the signed bytes settle what the digest reads.
  said-agrees :
      (peer : Bytes) (o r : Option Held)
      → DecodedAt o
      → DecodedAt r
      → rank_of o ≡ rank_of r
      → said_bytes peer o ≡ said_bytes peer r
  unfolding said_bytes
  said-agrees peer none none d e h = refl
  said-agrees peer none (some r) d e h = cc
  said-agrees peer (some o) none d e h = cc
  said-agrees peer (some o) (some r) (b, db, sb, pb, ub) (c, dc, sc, pc, uc) h =
      let same : b ≡ c = cc in
      λ i.
        spelled peer ((sb ∙ ap (λ x. x.seq) same ∙ sym sc) i)
          ((pb ∙ ap (λ x. x.position) same ∙ sym pc) i)
          ((ub ∙ ap (λ x. x.username) same ∙ sym uc) i)

  module _ (X : Platform) (s t : StandingSet)
      (same : (p : PeerId)
        → said_bytes (X.to_bytes p) (Map.get p s) ≡ said_bytes (X.to_bytes p) (Map.get p t)) where
    digest_input-agrees : (m : Members) → digest_input X s m ≡ digest_input X t m
    unfolding digest_input
    digest_input-agrees [] = refl
    digest_input-agrees ((p, member) ∷ m) =
        ap₂ (λ a b. a ++ b) (same member.peer) (digest_input-agrees m)

  -- Two nodes that start from the same standings and take in the same batch, in whatever orders, end
  -- with the same standings digest over the same members, where each statement is held with the
  -- fields that its signed bytes decode to.
  pub digest-perm :
      (X : Platform) (m : Members) (set : StandingSet) (xs ys : List (PeerId × Held))
      → AllDecoded set
      → All (λ x. Decoded x.1) xs
      → All (λ x. Decoded x.1) ys
      → Perm xs ys
      → standings_digest X (insert_all set xs) m ≡ standings_digest X (insert_all set ys) m
  unfolding standings_digest
  digest-perm X m set xs ys all dx dy t =
      ap (λ b. X.sha256 (2 ∷ b))
        (digest_input-agrees X (insert_all set xs) (insert_all set ys)
          (λ p.
            said-agrees (X.to_bytes p) _ _ (insert_all-AllDecoded set xs all dx p)
              (insert_all-AllDecoded set ys all dy p) (insert_all-perm p set xs ys t))
          m)
