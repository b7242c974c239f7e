-- ===== src/Groups/Store/Ledger.antt =====
-- The store as a ledger of chains, one for each known group: what a write makes of it. store.rs.
use p2parchiver.Common.{
  ℕ, ◌≡◌, refl, sym, ap, ◌∙◌, subst, inl, inr, Bool, true, false, Option, none, some, List, [], ◌∷◌,
  ◌++◌, append_assoc, arith, is_some, Bool-cases,
}
use p2parchiver.Common.Bytes.{bytes_eq, bytes_eq_sound}
use p2parchiver.Common.Map
use p2parchiver.Common.Map.{Map}
use p2parchiver.Common.Result.{Result, ok, err, ok-injective}
use p2parchiver.Common.Int.{ℤ}
use p2parchiver.Platform.{Platform, PeerId, Cbor}
use p2parchiver.Common.Keyed
use p2parchiver.Common.Keyed.{Keyed}
use p2parchiver.Groups.Id.{GroupId}
use p2parchiver.Groups.Chain.Types.{Entry, EntryBody, Op}
use p2parchiver.Groups.Chain.{Chain, load, name, entries}
use p2parchiver.Groups.Standing.{Standing, StandingBody, StandingSet}
use p2parchiver.Groups.Sync.Wire.{GroupRow, StoreError}
use p2parchiver.Groups.Store.Tables
use p2parchiver.Groups.Store.Tables.{held_of, head_is, Tables, GroupRecord, StandingRow}
use p2parchiver.Groups.Store.Reads.{chain}
use p2parchiver.Groups.Store.Coherent.{IsCoherent, IsReady}
use mathlib.Core.Path.{ap₂}
use p2parchiver.Groups.Store.Tables.{row_of, at_group, update_group, load_rows}
use p2parchiver.Groups.Store.Frame.{
  OnlyAt, OnlyAt-refl, OnlyAt-trans, update_group-OnlyAt, note_news-get, note_news-OnlyAt,
  forget-OnlyAt, rebuild-OnlyAt,
}
use p2parchiver.Groups.Store.Reads.{chain_of, chain}
use p2parchiver.Groups.Store.Growth.{Grows, InStep-chain, write_head-Moved}
use p2parchiver.Groups.Store.Writes.{finish_put, put, or_keep, author_from}
use p2parchiver.Groups.Store.PutKeeps.{finish_put-IsLocal}
use p2parchiver.Groups.Store.Writes.{put_checked, author_checked}
use p2parchiver.Groups.Store.Ops.{
  PutWritten, put_checked-PutWritten, AuthorWritten, author_checked-AuthorWritten, published,
}
use p2parchiver.Groups.Store.CatchUp.{finished-chain}

-- Whether a group is known does not change when its row does.
modify-known :
    (g h : GroupId) (f : GroupRecord → GroupRecord) (gs : Keyed GroupRecord)
    → is_some (row_of (Keyed.find h (Keyed.modify g f gs))) ≡ is_some (row_of (Keyed.find h gs))
modify-known g h f gs = ground (arith, Keyed.find-modify g h f gs)

module _ (X : Platform) (ecbor : Cbor EntryBody) where
  abbrev pub view_of : Bool → Result StoreError Chain → Option Chain
  view_of true (ok c) = some c
  view_of _ _ = none

  -- What the tables hold, with the rest forgotten: the chain of each group.
  abbrev pub view : Tables → GroupId → Option Chain
  view t g = view_of (is_some (Tables.get t g)) (chain X ecbor t g)

  -- What becomes of the chain of a group when a node learns of it.
  pub data Learned : Option Chain → Option Chain → Type 0 where
    stays : (o : Option Chain) → Learned o o
    learns : (c : Chain) → load X ecbor (entries c) ≡ ok c → Learned none (some c)
    grows :
        (c d : Chain) (fresh : List Entry)
        → entries d ≡ entries c ++ fresh
        → load X ecbor (entries d) ≡ ok d
        → Learned (some c) (some d)

  -- What becomes of it when the node drops groups.
  pub data Dropped : Option Chain → Option Chain → Type 0 where
    stays : (o : Option Chain) → Dropped o o
    drops : (c : Chain) → Dropped (some c) none

  pub Learned-trans : (a b c : Option Chain) → Learned a b → Learned b c → Learned a c
  Learned-trans a b c (Learned.stays o) k = k
  Learned-trans a b c h (Learned.stays o) = h
  Learned-trans a b c (Learned.learns d loads) (Learned.grows d' e fresh all l) = Learned.learns e l
  Learned-trans a b c (Learned.grows o d fresh all loads) (Learned.grows d' e later all' l) =
      Learned.grows o e (fresh ++ later)
        (all' ∙ ap (λ es. es ++ later) all ∙ append_assoc (entries o) fresh later) l

  pub Dropped-trans : (a b c : Option Chain) → Dropped a b → Dropped b c → Dropped a c
  Dropped-trans a b c (Dropped.stays o) k = k
  Dropped-trans a b c (Dropped.drops d) (Dropped.stays o) = Dropped.drops d

  pub chain-entries :
      (t t' : Tables) (g : GroupId)
      → t'.group_entries g ≡ t.group_entries g
      → chain X ecbor t' g ≡ chain X ecbor t g
  unfolding chain
  chain-entries t t' g h = ap (λ m. chain_of X ecbor g (Map.values m)) h

  -- A write to the rows of one group leaves the view of the others.
  pub OnlyAt-view :
      (g : GroupId) (t t' : Tables)
      → OnlyAt g t t'
      → (h : GroupId) → bytes_eq g h ≡ false
      → view t' h ≡ view t h
  OnlyAt-view g t t' only h other =
      let (row, es, _, _) = only h other in ap₂ view_of (ap is_some row) (chain-entries t t' h es)

  known-view :
      (t : Tables) (g : GroupId) (c : Chain)
      → is_some (Tables.get t g) ≡ true
      → chain X ecbor t g ≡ ok c
      → view t g ≡ some c
  known-view t g c known held = ap₂ view_of known held

module _ (X : Platform) (ecbor : Cbor EntryBody) (scbor : Cbor StandingBody) (me : PeerId) where
  -- One write: the rows of one group, and what it learns of its chain.
  abbrev pub Wrote : Tables → Tables → Type 0
  Wrote t t' =
      (g : GroupId) × OnlyAt g t t' × Learned X ecbor (view X ecbor t g) (view X ecbor t' g)

  pub Wrote-refl : (t : Tables) → Wrote t t
  Wrote-refl t = ([], OnlyAt-refl [] t, Learned.stays (view X ecbor t []))

  finished-known :
      (t : Tables) (g : GroupId) (c d : Chain) (n : ℕ) (ss : List Standing) (now : ℤ) (h : GroupId)
      → is_some (Tables.get (finish_put X ecbor scbor me g c d n ss now t).0 h)
        ≡ is_some (Tables.get t h)
  unfolding finish_put Tables.rebuild_caches
  finished-known t g c d n ss now h = modify-known g h _ _ ∙ modify-known g h _ _

  pub rebuilt-known :
      (t : Tables) (g : GroupId) (c : Chain) (set : StandingSet) (h : GroupId)
      → is_some (Tables.get (Tables.rebuild_caches X scbor g c set t) h) ≡ is_some (Tables.get t h)
  unfolding Tables.rebuild_caches
  rebuilt-known t g c set h = modify-known g h _ _

  ready-view :
      (t : Tables) (g : GroupId) (c : Chain) (r : GroupRow)
      → IsReady X ecbor scbor t g c r
      → view X ecbor t g ≡ some c
  ready-view t g c r ready =
      known-view X ecbor t g c (ap is_some ready.found)
        (InStep-chain X ecbor scbor me t g c ready.loads ready.numbered)

  pub finished-view :
      (t : Tables) (g : GroupId) (c d : Chain) (n : ℕ) (ss : List Standing) (now : ℤ) (r : GroupRow)
      → IsReady X ecbor scbor t g d r
      → view X ecbor (finish_put X ecbor scbor me g c d n ss now t).0 g ≡ some d
  finished-view t g c d n ss now r ready =
      known-view X ecbor (finish_put X ecbor scbor me g c d n ss now t).0 g d
        (finished-known t g c d n ss now g ∙ ap is_some ready.found)
        (finished-chain X ecbor scbor me t g c d n ss now r ready)

  grown-Learned :
      (t t' : Tables) (g : GroupId) (c d : Chain) (r : GroupRow) (fresh : List Entry)
      → IsReady X ecbor scbor t g c r
      → Grows X ecbor scbor me c fresh d
      → view X ecbor t' g ≡ some d
      → Learned X ecbor (view X ecbor t g) (view X ecbor t' g)
  grown-Learned t t' g c d r fresh ready longer ends =
      subst (λ o. Learned X ecbor o (view X ecbor t' g)) (sym (ready-view t g c r ready))
        (subst (Learned X ecbor (some c)) (sym ends)
          (Learned.grows c d fresh longer.all longer.loads))

  PutWritten-Wrote :
      (t t' : Tables) (g : GroupId) (ss : List Standing) (now : ℤ)
      → IsCoherent X ecbor scbor t
      → PutWritten X ecbor scbor me t g ss now t'
      → Wrote t t'
  PutWritten-Wrote t t' g ss now coherent
        (r, c, d, fresh, n, t1, ready, longer, counted, wrote, ends) =
      let (t2, wrote', (r', moved, only, rows)) =
        write_head-Moved X ecbor scbor me t g c d r fresh n ready longer counted in
      let last = (finish_put X ecbor scbor me g c d n ss now t2).0 in
      let sorted = subst Map.IsSorted (sym rows) (coherent g).ordered in
      let (_, only') = finish_put-IsLocal X ecbor scbor me t2 g c d n ss now r' moved sorted in
      let same : last ≡ t' =
        ap (λ x. (finish_put X ecbor scbor me g c d n ss now x).0)
          (ok-injective (sym wrote' ∙ wrote))
        ∙ ends in
      subst (Wrote t) same (
        g,
        OnlyAt-trans g t t2 last only only',
        grown-Learned t last g c d r fresh ready longer (finished-view t2 g c d n ss now r' moved),
      )

  published-known :
      (t : Tables) (g : GroupId) (d : Chain) (at : ℤ)
      → is_some (Tables.get (published X ecbor scbor me t g d at) g) ≡ is_some (Tables.get t g)
  published-known t g d at =
      let t3 = Tables.rebuild_caches X scbor g d (Tables.load_standings X scbor t g) t in
      let k : GroupRow → GroupRow = λ x. record x { name = name d; last_synced = at } in
      ap is_some (note_news-get g g (update_group g k t3))
      ∙ modify-known g g (λ r. record r { row = k r.row }) t3.groups
      ∙ rebuilt-known t g d (Tables.load_standings X scbor t g) g

  published-entries :
      (t : Tables) (g : GroupId) (d : Chain) (at : ℤ)
      → (published X ecbor scbor me t g d at).group_entries g ≡ t.group_entries g
  unfolding Tables.note_news Tables.rebuild_caches
  published-entries t g d at = refl

  published-OnlyAt :
      (t : Tables) (g : GroupId) (d : Chain) (at : ℤ)
      → OnlyAt g t (published X ecbor scbor me t g d at)
  published-OnlyAt t g d at =
      let set = Tables.load_standings X scbor t g in
      let t3 = Tables.rebuild_caches X scbor g d set t in
      let k : GroupRow → GroupRow = λ x. record x { name = name d; last_synced = at } in
      let t4 = update_group g k t3 in
      OnlyAt-trans g t t3 (Tables.note_news g t4) (rebuild-OnlyAt X scbor g d set t) (
        OnlyAt-trans g t3 t4 (Tables.note_news g t4) (update_group-OnlyAt g k t3)
          (note_news-OnlyAt g t4))

  AuthorWritten-Wrote :
      (t t' : Tables) (g : GroupId) (at : ℤ)
      → IsCoherent X ecbor scbor t
      → AuthorWritten X ecbor scbor me t g at t'
      → Wrote t t'
  AuthorWritten-Wrote t t' g at coherent (r, c, d, e, t1, ready, longer, wrote, ends) =
      let (t2, wrote', (r', moved, only, rows)) =
        write_head-Moved X ecbor scbor me t g c d r (e ∷ []) 1 ready longer refl in
      let last = published X ecbor scbor me t2 g d at in
      let same : last ≡ t' =
        ap (λ x. published X ecbor scbor me x g d at) (ok-injective (sym wrote' ∙ wrote)) ∙ ends in
      subst (Wrote t) same (
        g,
        OnlyAt-trans g t t2 last only (published-OnlyAt t2 g d at),
        grown-Learned t last g c d r (e ∷ []) ready longer (
            known-view X ecbor last g d (published-known t2 g d at ∙ ap is_some moved.found) (
              chain-entries X ecbor t2 last g (published-entries t2 g d at)
              ∙ InStep-chain X ecbor scbor me t2 g d moved.loads moved.numbered)),
      )

  kept-Wrote :
      {A : Type 0} (t : Tables) (r : Result StoreError (Tables × A))
      → ((t' : Tables) (a : A) → r ≡ ok (t', a) → Wrote t t')
      → Wrote t (or_keep X ecbor scbor me t r).0
  kept-Wrote t (ok (t', a)) passes = passes t' a refl
  kept-Wrote t (err e) passes = Wrote-refl t

  pub put-Wrote :
      (t : Tables) (g : GroupId) (from : ℕ) (es : List Entry) (ss : List Standing) (now : ℤ)
      → IsCoherent X ecbor scbor t
      → Wrote t (put X ecbor scbor me t g from es ss now).0
  put-Wrote t g from es ss now coherent =
      kept-Wrote t (put_checked X ecbor scbor me t t g from es ss now) (λ t' a h.
        PutWritten-Wrote t t' g ss now coherent
          (put_checked-PutWritten X ecbor scbor me t t' g from es ss now a coherent h))

  pub author-Wrote :
      (t : Tables) (key : X.Keypair) (g : GroupId) (op : Op) (at : ℤ)
      → IsCoherent X ecbor scbor t
      → Wrote t (author_from X ecbor scbor me t t key g op at).0
  author-Wrote t key g op at coherent =
      kept-Wrote t (author_checked X ecbor scbor me t t key g op at) (λ t' e h.
        AuthorWritten-Wrote t t' g at coherent
          (author_checked-AuthorWritten X ecbor scbor me t t' key g op at e coherent h))

  dropped : (o : Option Chain) → Dropped X ecbor o none
  dropped none = Dropped.stays none
  dropped (some c) = Dropped.drops c

  -- Forgetting a group drops its chain and leaves those of the others.
  pub forget-Dropped :
      (t : Tables) (g h : GroupId)
      → Dropped X ecbor (view X ecbor t h) (view X ecbor (Tables.forget g t) h)
  unfolding Tables.forget
  forget-Dropped t g h = elim (Bool-cases (bytes_eq g h)) [
    | inl same ↦
        let gone : is_some (Tables.get (Tables.forget g t) h) ≡ false =
          ground (arith, Keyed.find-erase g h t.groups, same) in
        subst (Dropped X ecbor (view X ecbor t h))
          (sym (ap (λ b. view_of X ecbor b (chain X ecbor (Tables.forget g t) h)) gone))
          (dropped (view X ecbor t h))
    | inr other ↦
        subst (Dropped X ecbor (view X ecbor t h))
          (sym (OnlyAt-view X ecbor g t (Tables.forget g t) (forget-OnlyAt g t) h other))
          (Dropped.stays (view X ecbor t h))
  ]

  -- A write adds to what the tables held when it began.
  pub Wrote-Learned :
      (t t' : Tables) (h : GroupId)
      → Wrote t t'
      → Learned X ecbor (view X ecbor t h) (view X ecbor t' h)
  Wrote-Learned t t' h (g, only, change) = elim (Bool-cases (bytes_eq g h)) [
    | inl same ↦
        subst (λ k. Learned X ecbor (view X ecbor t k) (view X ecbor t' k))
          (bytes_eq_sound g h same) change
    | inr other ↦
        subst (Learned X ecbor (view X ecbor t h)) (sym (OnlyAt-view X ecbor g t t' only h other))
          (Learned.stays (view X ecbor t h))
  ]
