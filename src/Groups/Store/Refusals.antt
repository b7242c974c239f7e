-- ===== src/Groups/Store/Refusals.antt =====
-- Why `put` fails: store.rs, put.
use p2parchiver.Common.{
  ℕ, suc, ◌+◌, ◌-◌, ◌≤◌, ◌<◌, min, ◌≡◌, refl, sym, ap, ◌∙◌, subst, inl, inr, Bool, false, Option,
  none, some, List, [], ◌∷◌, arith, ltb, ltb→lt, Bool-cases, Option-cases, length, get_elem?, take,
  drop,
}
use p2parchiver.Common.Result.{Result, ok, err, Result-cases, ok≢err, err-injective, ◌>>=◌, fail_if}
use p2parchiver.Common.Int.{ℤ}
use p2parchiver.Platform.{Platform, PeerId, Cbor}
use p2parchiver.Groups.Id.{GroupId}
use p2parchiver.Groups.Chain.Types.{Entry, EntryBody, ChainError, hash}
use p2parchiver.Groups.Chain.{Chain, load, extend, len, entries, hash_at}
use p2parchiver.Groups.Standing.{Standing, StandingBody}
use p2parchiver.Groups.Sync.Wire.{GroupRow, Applied, StoreError}
use p2parchiver.Groups.Store.Tables
use p2parchiver.Groups.Store.Tables.{held_of, head_is, Tables, GroupRecord, StandingRow}
use p2parchiver.Groups.Store.Reads.{chain}
use p2parchiver.Groups.Store.Coherent.{IsCoherent, IsReady}
use p2parchiver.Groups.Store.Tables.{row_of, at_group, update_group, load_rows}
use p2parchiver.Groups.Store.Frame.{}
use p2parchiver.Groups.Chain.Extend.{load-IsValid, extend_atomic}
use p2parchiver.Groups.Store.Reads.{chain}
use p2parchiver.Groups.Store.Writes.{extend_by, write_head, grown}
use p2parchiver.Groups.Store.Growth.{extend_by-Grows, write_head-Moved}
use p2parchiver.Groups.Store.Writes.{same_hash, finish_put, put, or_keep, diverges, fail_at}
use p2parchiver.Groups.Store.Writes.{put_checked}
use p2parchiver.Groups.Store.Ops.{known-IsReady}
use p2parchiver.Common.{drop-min}

module _ (X : Platform) (ecbor : Cbor EntryBody) (scbor : Cbor StandingBody) (me : PeerId) where
  -- The entry that `diverges` names differs from ours at that place.
  abbrev Differs : Chain → ℕ → List Entry → ℕ → Type 0
  Differs c from es s =
      (i : ℕ) × (x : Entry) × (s ≡ from + i)
      × (get_elem? es i ≡ some x)
      × (same_hash X ecbor scbor me (hash X ecbor x) (hash_at c s) ≡ false)

  diverges-Differs :
      (c : Chain) (from : ℕ) (es : List Entry) (s : ℕ)
      → diverges X ecbor scbor me c from es ≡ some s
      → Differs c from es s
  unfolding diverges
  diverges-Differs c from [] s h = absurd (ground (arith, h))
  diverges-Differs c from (e ∷ es) s h =
      elim (Bool-cases (same_hash X ecbor scbor me (hash X ecbor e) (hash_at c from))) [
        | inl same ↦
            let (i, x, at, there, differs) =
              diverges-Differs c (from + 1) es s (ground (arith, h, same)) in
            (suc i, x, omega (arith, at), there, differs)
        | inr other ↦
            let here : from ≡ s = ground (arith, h, other) in
            (
              0,
              e,
              omega (arith, here),
              refl,
              subst (λ k. same_hash X ecbor scbor me (hash X ecbor e) (hash_at c k) ≡ false) here
                  other,
            )
      ]

  -- Why a store whose tables are coherent refuses what a peer sent.
  pub data Refused (t : Tables) (g : GroupId) (from : ℕ) (es : List Entry)
      : StoreError → Type 0 where
    unknown : Tables.get t g ≡ none → Refused t g from es (StoreError.unknown_group g)
    beyond :
        (c : Chain)
        → chain X ecbor t g ≡ ok c
        → len c < from
        → Refused t g from es (StoreError.gap (len c) from)
    differs :
        (c : Chain) (s : ℕ)
        → chain X ecbor t g ≡ ok c
        → from ≤ s
        → Differs c from (take (min (len c - from) (length es)) es) s
        → Refused t g from es (StoreError.diverged g s)
    unfit :
        (c : Chain) (e : ChainError)
        → chain X ecbor t g ≡ ok c
        → from ≤ len c
        → extend X ecbor c (drop (len c - from) es) ≡ (c, err e)
        → Refused t g from es (StoreError.chain e)

  extend_by-fails :
      (c : Chain) (fresh : List Entry) (e : StoreError)
      → load X ecbor (entries c) ≡ ok c
      → extend_by X ecbor scbor me c fresh ≡ err e
      → (x : ChainError) × (e ≡ StoreError.chain x) × (extend X ecbor c fresh ≡ (c, err x))
  extend_by-fails c [] e loads h = absurd (ok≢err h)
  extend_by-fails c (f ∷ fs) e loads h =
      elim (extend_atomic X ecbor c (f ∷ fs) (load-IsValid X ecbor (entries c) c loads).0) [
        | inl (x, failed) ↦ (x, err-injective (sym h ∙ ap (grown X ecbor scbor me) failed), failed)
        | inr (d, grew, all, id, admin, valid) ↦
            absurd (ok≢err (sym (ap (grown X ecbor scbor me) grew) ∙ h))
      ]

  abbrev attempt :
      Tables
      → GroupId
      → Chain
      → List Entry
      → List Standing
      → ℤ
      → Result StoreError (Chain × ℕ)
      → Result StoreError (Tables × Applied)
  attempt t g c fresh ss now r = r >>= λ (d, n).
      write_head X ecbor scbor me g (len c) d fresh n t >>= λ t'.
      ok (finish_put X ecbor scbor me g c d n ss now t')

  -- With a chain that reaches far enough and agrees, only the chain's own rules refuse entries.
  attempt-Refused :
      (t : Tables) (g : GroupId) (r : GroupRow) (c : Chain) (from : ℕ) (es : List Entry)
      (ss : List Standing) (now : ℤ) (e : StoreError)
      → IsReady X ecbor scbor t g c r
      → chain X ecbor t g ≡ ok c
      → from ≤ len c
      → attempt t g c
          (drop (len c - from) es)
          ss
          now
          (extend_by X ecbor scbor me c (drop (len c - from) es))
        ≡ err e
      → Refused t g from es e
  attempt-Refused t g r c from es ss now e ready held within h =
      let fresh = drop (len c - from) es in
      elim (Result-cases (extend_by X ecbor scbor me c fresh)) [
        | inl (x, failed) ↦
            let (y, is, refused) = extend_by-fails c fresh x ready.loads failed in
            let same : x ≡ e = err-injective (sym (ap (attempt t g c fresh ss now) failed) ∙ h) in
            subst (Refused t g from es) (sym is ∙ same) (unfit c y held within refused)
        | inr ((d, n), grew) ↦
            let (grows, counted) = extend_by-Grows X ecbor scbor me c d fresh n ready.loads grew in
            let (t2, wrote, _) =
              write_head-Moved X ecbor scbor me t g c d r fresh n ready grows counted in
            absurd (
              ok≢err (
                sym (
                  ap (attempt t g c fresh ss now) grew
                  ∙ ap (λ w. w >>= λ t'. ok (finish_put X ecbor scbor me g c d n ss now t')) wrote)
                ∙ h))
      ]

  abbrev after_overlap :
      Tables
      → GroupId
      → Chain
      → ℕ
      → List Entry
      → List Standing
      → ℤ
      → Option ℕ
      → Bool
      → ℕ
      → Result StoreError (Tables × Applied)
  after_overlap t g c from es ss now o short overlap = fail_at X ecbor scbor me g o >>= λ _.
      fail_if short (StoreError.gap (len c) from) >>= λ _.
      attempt t g c (drop overlap es) ss now (extend_by X ecbor scbor me c (drop overlap es))

  put_known :
      (t : Tables) (g : GroupId) (r : GroupRow) (c : Chain) (from : ℕ) (es : List Entry)
      (ss : List Standing) (now : ℤ)
      → Tables.get t g ≡ some r
      → chain X ecbor t g ≡ ok c
      → put_checked X ecbor scbor me t t g from es ss now
        ≡ after_overlap t g c from es ss now
            (diverges X ecbor scbor me c from (take (min (len c - from) (length es)) es))
            (ltb (len c) from)
            (min (len c - from) (length es))
  unfolding put_checked
  put_known t g r c from es ss now found held = rw found (rw held refl)

  known-Refused :
      (t : Tables) (g : GroupId) (r : GroupRow) (c : Chain) (from : ℕ) (es : List Entry)
      (ss : List Standing) (now : ℤ) (e : StoreError)
      → IsReady X ecbor scbor t g c r
      → chain X ecbor t g ≡ ok c
      → put_checked X ecbor scbor me t t g from es ss now ≡ err e
      → Refused t g from es e
  known-Refused t g r c from es ss now e ready held h =
      let overlap = min (len c - from) (length es) in
      let split = after_overlap t g c from es ss now in
      let h' = sym (put_known t g r c from es ss now ready.found held) ∙ h in
      elim (Option-cases (diverges X ecbor scbor me c from (take overlap es))) [
        | inr (s, away) ↦
            let (i, x, at, there, other) = diverges-Differs c from (take overlap es) s away in
            subst (Refused t g from es)
              (err-injective (sym (ap (λ o. split o (ltb (len c) from) overlap) away) ∙ h'))
              (differs c s held (omega (arith, at)) (i, x, at, there, other))
        | inl alike ↦
            let h1 = sym (ap (λ o. split o (ltb (len c) from) overlap) alike) ∙ h' in
            elim (Bool-cases (ltb (len c) from)) [
              | inl short ↦
                  subst (Refused t g from es)
                    (err-injective (sym (ap (λ b. split none b overlap) short) ∙ h1))
                    (beyond c held (ltb→lt (len c) from short))
              | inr reached ↦
                  attempt-Refused t g r c from es ss now e ready held (ground (arith, reached)) (
                    ap (λ fresh. attempt t g c fresh ss now (extend_by X ecbor scbor me c fresh))
                      (sym (drop-min (len c - from) (length es) es (omega arith)))
                    ∙ sym (ap (λ b. split none b overlap) reached)
                    ∙ h1)
            ]
      ]

  or_keep-err :
      (t : Tables) (r : Result StoreError (Tables × Applied)) (e : StoreError)
      → (or_keep X ecbor scbor me t r).1 ≡ err e
      → (r ≡ err e) × ((or_keep X ecbor scbor me t r).0 ≡ t)
  or_keep-err t (ok (t', a)) e h = absurd (ok≢err h)
  or_keep-err t (err x) e h = (ap (λ y. err y) (err-injective h), refl)

  put_unknown :
      (t : Tables) (g : GroupId) (from : ℕ) (es : List Entry) (ss : List Standing) (now : ℤ)
      → Tables.get t g ≡ none
      → put_checked X ecbor scbor me t t g from es ss now ≡ err (StoreError.unknown_group g)
  unfolding put_checked
  put_unknown t g from es ss now gone = rw gone refl

  -- When `put` fails on coherent tables it leaves them as they are, and for a reason: the group is
  -- unknown, the entries start beyond the end of our chain, one of them is not ours at its place, or
  -- the first one that is new breaks a rule of the chain. Without another writer it never races.
  pub put-Refused :
      (t : Tables) (g : GroupId) (from : ℕ) (es : List Entry) (ss : List Standing) (now : ℤ)
      (e : StoreError)
      → IsCoherent X ecbor scbor t
      → (put X ecbor scbor me t g from es ss now).1 ≡ err e
      → ((put X ecbor scbor me t g from es ss now).0 ≡ t) × Refused t g from es e
  put-Refused t g from es ss now e coherent h =
      let (failed, same) = or_keep-err t (put_checked X ecbor scbor me t t g from es ss now) e h in
      (
        same,
        elim (Option-cases (Tables.get t g)) [
          | inl gone ↦
              subst (Refused t g from es)
                (err-injective (sym (put_unknown t g from es ss now gone) ∙ failed)) (unknown gone)
          | inr (r, found) ↦
              let (c, ready, named, held) = known-IsReady X ecbor scbor me t g r coherent found in
              known-Refused t g r c from es ss now e ready held failed
        ],
      )
