-- ===== src/Groups/Store/CatchUp.antt =====
-- A group whose entries a peer sends on: store.rs, put.
use p2parchiver.Common.{
  ℕ, suc, ◌-◌, ◌≤◌, min, ◌≡◌, refl, sym, ap, ◌∙◌, subst, inl, inr, false, none, some, List, [], ◌∷◌,
  ◌++◌, append-nil, arith, ltb, length, take, drop, length-append, length-drop,
}
use p2parchiver.Common.Bytes.{bytes_eq_refl}
use p2parchiver.Common.Result.{Result, ok, ok-injective, ok≢err, ◌>>=◌}
use p2parchiver.Common.Int.{ℤ}
use p2parchiver.Platform.{Platform, PeerId, Cbor}
use p2parchiver.Groups.Id.{GroupId}
use p2parchiver.Groups.Chain.Types.{Entry, EntryBody}
use p2parchiver.Groups.Chain.{Chain, load, extend, len, entries, hash_at}
use p2parchiver.Groups.Standing.{Standing, StandingBody}
use p2parchiver.Groups.Sync.Wire.{GroupRow, Applied, StoreError}
use p2parchiver.Groups.Store.Tables
use p2parchiver.Groups.Store.Tables.{held_of, head_is, Tables, GroupRecord, StandingRow}
use p2parchiver.Groups.Store.Reads.{chain}
use p2parchiver.Groups.Store.Coherent.{IsCoherent, IsReady}
use p2parchiver.Groups.Store.Tables.{row_of, at_group, update_group, load_rows}
use p2parchiver.Groups.Store.Frame.{}
use p2parchiver.Common.{length-map}
use p2parchiver.Groups.Chain.{extended, entries_of}
use p2parchiver.Groups.Chain.Extend.{load-IsValid, extend_atomic}
use p2parchiver.Groups.Chain.Replay.{load-append}
use p2parchiver.Groups.Store.Reads.{chain}
use p2parchiver.Groups.Store.Writes.{extend_by, write_head, grown}
use p2parchiver.Groups.Store.Growth.{Grows, extended-Grows, InStep-chain, write_head-Moved}
use p2parchiver.Groups.Store.Writes.{finish_put, put, or_keep, diverges}
use p2parchiver.Groups.Store.Writes.{put_checked}
use p2parchiver.Groups.Chain.{extended}
use p2parchiver.Groups.Store.Ops.{known-IsReady}
use p2parchiver.Groups.Chain.Link.{entry_facts}
use p2parchiver.Groups.Chain.Rules.{IsValid}
use p2parchiver.Groups.Chain.{Verified}
use p2parchiver.Common.{drop-append, take_append, drop_append, drop_elem, map-drop}

module _ (X : Platform) (ecbor : Cbor EntryBody) (scbor : Cbor StandingBody) (me : PeerId) where
  -- A valid chain does not diverge from its own entries.
  own-diverges :
      (c : Chain) (i : ℕ) (vs : List Verified)
      → IsValid X ecbor c
      → drop i c.entries ≡ vs
      → diverges X ecbor scbor me c i (entries_of vs) ≡ none
  unfolding diverges hash_at
  own-diverges c i [] valid h = refl
  own-diverges c i (v ∷ vs) valid h =
      let (at, rest) = drop_elem i c.entries vs v h in
      let (hashed, decoded) = entry_facts X ecbor c i v valid at in
      let step = own-diverges c (suc i) vs valid rest in
      ground (arith, at, hashed, step, bytes_eq_refl v.hash)

  -- Of the entries of a longer chain from a place in the shorter one, the first part is the shorter
  -- one's own and the rest is what is new.
  pub overlap_parts :
      (xs ys : List Entry) (from : ℕ)
      → from ≤ length xs
      → (min (length xs - from) (length (drop from (xs ++ ys))) ≡ length (drop from xs))
        × (take (length (drop from xs)) (drop from (xs ++ ys)) ≡ drop from xs)
        × (drop (length (drop from xs)) (drop from (xs ++ ys)) ≡ ys)
  overlap_parts xs ys from within =
      let split = drop-append from xs ys within in
      let total = ap length split ∙ length-append (drop from xs) ys in
      let mine = length-drop from xs in
      (
        omega (arith, total, mine, within),
        ap (take (length (drop from xs))) split ∙ take_append (drop from xs) ys,
        ap (drop (length (drop from xs))) split ∙ drop_append (drop from xs) ys,
      )

  load_rest :
      (es fs : List Entry) (c d : Chain)
      → load X ecbor es ≡ ok c
      → load X ecbor (es ++ fs) ≡ ok d
      → extended X ecbor (extend X ecbor c fs) ≡ ok d
  unfolding load
  load_rest [] fs c d h k = absurd (ground (arith, h))
  load_rest (e ∷ es) fs c d h k =
      sym (ap (λ r. r >>= λ b. extended X ecbor (extend X ecbor b fs)) h)
      ∙ sym (load-append X ecbor e es fs)
      ∙ k

  -- What makes a longer chain that loads is accepted as a whole.
  accepted_by :
      (c d : Chain) (fresh : List Entry)
      → load X ecbor (entries c) ≡ ok c
      → load X ecbor (entries c ++ fresh) ≡ ok d
      → extend_by X ecbor scbor me c fresh ≡ ok (d, length fresh)
  accepted_by c d [] loads longer =
      ap (λ x. ok (x, 0))
        (ok-injective (sym loads ∙ ap (load X ecbor) (sym (append-nil (entries c))) ∙ longer))
  accepted_by c d (e ∷ es) loads longer =
      let h = load_rest (entries c) (e ∷ es) c d loads longer in
      elim (extend_atomic X ecbor c (e ∷ es) (load-IsValid X ecbor (entries c) c loads).0) [
        | inl (x, failed) ↦ absurd (ok≢err (sym h ∙ ap (extended X ecbor) failed))
        | inr (d', grew, all, id, admin, valid) ↦
            ap (grown X ecbor scbor me) grew
            ∙ ap (λ x. ok (x, length (e ∷ es)))
                (ok-injective (sym (ap (extended X ecbor) grew) ∙ h))
      ]

  -- The chain that the tables hold after the end of `put`.
  pub finished-chain :
      (t : Tables) (g : GroupId) (c d : Chain) (n : ℕ) (ss : List Standing) (now : ℤ) (r : GroupRow)
      → IsReady X ecbor scbor t g d r
      → chain X ecbor (finish_put X ecbor scbor me g c d n ss now t).0 g ≡ ok d
  unfolding finish_put Tables.rebuild_caches
  finished-chain t g c d n ss now r ready =
      InStep-chain X ecbor scbor me (finish_put X ecbor scbor me g c d n ss now t).0 g d ready.loads
        ready.numbered

  -- What `put` answers, and the chain it leaves.
  abbrev pub CaughtUp : Tables × Result StoreError Applied → GroupId → Chain → ℕ → Type 0
  CaughtUp x g d n =
      (a : Applied) × (x.1 ≡ ok a)
      × (a.accepted ≡ n)
      × (a.head_seq ≡ len d)
      × (chain X ecbor x.0 g ≡ ok d)

  written-CaughtUp :
      (t : Tables) (g : GroupId) (c d : Chain) (r : GroupRow) (fresh : List Entry)
      (ss : List Standing) (now : ℤ)
      → IsReady X ecbor scbor t g c r
      → Grows X ecbor scbor me c fresh d
      → CaughtUp
          (or_keep X ecbor scbor me t (
            write_head X ecbor scbor me g (len c) d fresh (length fresh) t >>= λ t'.
            ok (finish_put X ecbor scbor me g c d (length fresh) ss now t')))
          g
          d
          (length fresh)
  unfolding finish_put
  written-CaughtUp t g c d r fresh ss now ready grows =
      let (t2, wrote, (r', moved, only, rows)) =
        write_head-Moved X ecbor scbor me t g c d r fresh (length fresh) ready grows refl in
      let n = length fresh in
      subst
        (λ w.
          CaughtUp
            (or_keep X ecbor scbor me t
              (w >>= λ t'. ok (finish_put X ecbor scbor me g c d n ss now t')))
            g d n)
        (sym wrote)
        (
          (finish_put X ecbor scbor me g c d n ss now t2).1,
          refl,
          refl,
          refl,
          finished-chain t2 g c d n ss now r' moved,
        )

  put_longer :
      (t : Tables) (g : GroupId) (c d : Chain) (r : GroupRow) (fresh : List Entry) (from : ℕ)
      (ss : List Standing) (now : ℤ)
      → IsReady X ecbor scbor t g c r
      → load X ecbor (entries c ++ fresh) ≡ ok d
      → from ≤ len c
      → put_checked X ecbor scbor me t t g from (drop from (entries c ++ fresh)) ss now ≡ (
          write_head X ecbor scbor me g (len c) d fresh (length fresh) t >>= λ t'.
          ok (finish_put X ecbor scbor me g c d (length fresh) ss now t'))
  unfolding put_checked
  put_longer t g c d r fresh from ss now ready longer within =
      let held = InStep-chain X ecbor scbor me t g c ready.loads ready.numbered in
      let counted : length (entries c) ≡ len c = length-map _ c.entries in
      let (size, first, rest) =
        overlap_parts (entries c) fresh from (subst (λ n. from ≤ n) (sym counted) within) in
      let size' : min (len c - from) (length (drop from (entries c ++ fresh)))
          ≡ length (drop from (entries c)) =
        ap (λ n. min (n - from) (length (drop from (entries c ++ fresh)))) (sym counted) ∙ size in
      let alike : diverges X ecbor scbor me c from (drop from (entries c)) ≡ none =
        ap (diverges X ecbor scbor me c from) (sym (map-drop _ from c.entries))
        ∙ own-diverges c from (drop from c.entries)
            (load-IsValid X ecbor (entries c) c ready.loads).0 refl in
      let reached : ltb (len c) from ≡ false = ground (arith, within) in
      rw ready.found (
        rw held (
          rw size' (
            rw first (
              rw alike
                (rw reached (rw rest (rw (accepted_by c d fresh ready.loads longer) refl)))))))

  -- A peer whose chain for a group is a longer one sends its entries, from a place that we hold:
  -- `put` takes all that is new, and the tables then hold the peer's chain.
  pub put_catches_up :
      (t : Tables) (g : GroupId) (r : GroupRow) (c d : Chain) (fresh : List Entry) (from : ℕ)
      (ss : List Standing) (now : ℤ)
      → IsCoherent X ecbor scbor t
      → Tables.get t g ≡ some r
      → chain X ecbor t g ≡ ok c
      → load X ecbor (entries c ++ fresh) ≡ ok d
      → from ≤ len c
      → CaughtUp
          (put X ecbor scbor me t g from (drop from (entries c ++ fresh)) ss now)
          g
          d
          (length fresh)
  put_catches_up t g r c d fresh from ss now coherent found held longer within =
      let (c', ready', named, held') = known-IsReady X ecbor scbor me t g r coherent found in
      let ready =
        subst (λ x. IsReady X ecbor scbor t g x r) (ok-injective (sym held' ∙ held)) ready' in
      subst (λ x. CaughtUp (or_keep X ecbor scbor me t x) g d (length fresh))
        (sym (put_longer t g c d r fresh from ss now ready longer within))
        (written-CaughtUp t g c d r fresh ss now ready (
          extended-Grows X ecbor scbor me c d fresh ready.loads
            (load_rest (entries c) fresh c d ready.loads longer)))
