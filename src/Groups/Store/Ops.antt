-- ===== src/Groups/Store/Ops.antt =====
-- Every write of the store keeps its tables coherent: store.rs, put, author, author_standing, adopt and
-- forget.
use p2parchiver.Common.{
  ℕ, ◌-◌, min, ◌≡◌, refl, sym, ap, ◌∙◌, subst, some, List, [], ◌∷◌, arith, ltb, length, take, drop,
}
use p2parchiver.Common.Bytes.{bytes_eq_refl}
use p2parchiver.Common.Map
use p2parchiver.Common.Map.{Map}
use p2parchiver.Common.Result.{Result, ok, err, ok-injective, ok≢err, fail_if}
use p2parchiver.Common.Int.{ℤ}
use p2parchiver.Platform.{Platform, PeerId, Cbor}
use p2parchiver.Common.Keyed
use p2parchiver.Common.Keyed.{Keyed}
use p2parchiver.Groups.Id.{GroupId}
use p2parchiver.Groups.Chain.Types.{Entry, EntryBody, Op, ChainError}
use p2parchiver.Groups.Chain.{Chain, author, len, name}
use p2parchiver.Groups.Standing.{Standing, StandingBody}
use p2parchiver.Groups.Sync.Wire.{GroupRow, Applied, StoreError}
use p2parchiver.Groups.Store.Tables
use p2parchiver.Groups.Store.Tables.{held_of, head_is, Tables, GroupRecord, StandingRow}
use p2parchiver.Groups.Store.Reads.{require, chain}
use p2parchiver.Groups.Store.Coherent.{IsLocal, IsCoherent, IsReady, load-Tracks, at_group_self}
use p2parchiver.Groups.Store.Tables.{row_of, at_group, update_group, load_rows}
use p2parchiver.Groups.Store.Frame.{
  OnlyAt-trans, update_group-OnlyAt, note_news-get, note_news-OnlyAt, forget-OnlyAt, rebuild-OnlyAt,
  OnlyAt-IsCoherent,
}
use p2parchiver.Groups.Chain.Replay.{author-extend}
use p2parchiver.Groups.Store.Reads.{chain}
use p2parchiver.Groups.Store.Writes.{extend_by, write_head}
use p2parchiver.Groups.Store.Growth.{
  Grows, extended-Grows, extend_by-Grows, InStep-chain, write_head-Moved,
}
use p2parchiver.Groups.Store.Reads.{require}
use p2parchiver.Groups.Store.Writes.{
  finish_put, put, or_keep, author_from, diverges, signed, fail_at,
}
use p2parchiver.Groups.Store.PutKeeps.{renamed-IsLocal, finish_put-IsLocal}
use p2parchiver.Groups.Store.Writes.{put_checked, author_checked}
use p2parchiver.Common.Result.{passed_both}

module _ (X : Platform) (ecbor : Cbor EntryBody) (scbor : Cbor StandingBody) (me : PeerId) where
  or_keep-IsCoherent :
      {A : Type 0} (t : Tables) (r : Result StoreError (Tables × A))
      → IsCoherent X ecbor scbor t
      → ((t' : Tables) (a : A) → r ≡ ok (t', a) → IsCoherent X ecbor scbor t')
      → IsCoherent X ecbor scbor (or_keep X ecbor scbor me t r).0
  or_keep-IsCoherent t (ok (t', a)) coherent passes = passes t' a refl
  or_keep-IsCoherent t (err e) coherent passes = coherent

  -- A coherent group that is known is ready with its chain, under its name.
  pub known-IsReady :
      (t : Tables) (g : GroupId) (r : GroupRow)
      → IsCoherent X ecbor scbor t
      → Tables.get t g ≡ some r
      → (c : Chain) × IsReady X ecbor scbor t g c r × (r.name ≡ name c) × (chain X ecbor t g ≡ ok c)
  known-IsReady t g r coherent found =
      let step = (coherent g).in_step r found in
      (
        step.held,
        record {
          found = found;
          loads = step.loads;
          numbered = step.numbered;
          own_id = step.own_id;
          own_admin = step.own_admin;
          at_head = step.at_head;
          at_hash = step.at_hash;
        },
        step.own_name,
        InStep-chain X ecbor scbor me t g step.held step.loads step.numbered,
      )

  pub require-found :
      (t : Tables) (g : GroupId) (r : GroupRow) → require t g ≡ ok r → Tables.get t g ≡ some r
  require-found t g r h = ground arith

  -- What `put` does with a ready group, once it knows by what the chain grows.
  written-IsCoherent :
      (t t1 : Tables) (g : GroupId) (c d : Chain) (r : GroupRow) (fresh : List Entry) (n : ℕ)
      (ss : List Standing) (now : ℤ)
      → IsCoherent X ecbor scbor t
      → IsReady X ecbor scbor t g c r
      → Grows X ecbor scbor me c fresh d × (n ≡ length fresh)
      → write_head X ecbor scbor me g (len c) d fresh n t ≡ ok t1
      → IsCoherent X ecbor scbor (finish_put X ecbor scbor me g c d n ss now t1).0
  written-IsCoherent t t1 g c d r fresh n ss now coherent ready (grows, counted) wrote =
      let (t2, wrote', (r', moved, only, rows)) =
        write_head-Moved X ecbor scbor me t g c d r fresh n ready grows counted in
      let sorted = subst Map.IsSorted (sym rows) (coherent g).ordered in
      let (local, only') = finish_put-IsLocal X ecbor scbor me t2 g c d n ss now r' moved sorted in
      subst (λ x. IsCoherent X ecbor scbor (finish_put X ecbor scbor me g c d n ss now x).0)
        (ok-injective (sym wrote' ∙ wrote))
        (OnlyAt-IsCoherent X ecbor scbor g t (finish_put X ecbor scbor me g c d n ss now t2).0
          (OnlyAt-trans g t t2 (finish_put X ecbor scbor me g c d n ss now t2).0 only only') local
          coherent)

  -- The chain that a coherent store reads is the one its rows are ready with.
  read-IsReady :
      (t : Tables) (g : GroupId) (r : GroupRow) (c : Chain)
      → IsCoherent X ecbor scbor t
      → require t g ≡ ok r
      → chain X ecbor t g ≡ ok c
      → IsReady X ecbor scbor t g c r
  read-IsReady t g r c coherent found held =
      let (c', ready, _, held') = known-IsReady t g r coherent (require-found t g r found) in
      subst (λ x. IsReady X ecbor scbor t g x r) (ok-injective (sym held' ∙ held)) ready

  -- How a `put` that succeeds wrote its tables.
  abbrev pub PutWritten : Tables → GroupId → List Standing → ℤ → Tables → Type 0
  PutWritten t g ss now t' =
      (r : GroupRow) × (c : Chain) × (d : Chain) × (fresh : List Entry) × (n : ℕ) × (t1 : Tables)
      × IsReady X ecbor scbor t g c r
      × Grows X ecbor scbor me c fresh d
      × (n ≡ length fresh)
      × (write_head X ecbor scbor me g (len c) d fresh n t ≡ ok t1)
      × ((finish_put X ecbor scbor me g c d n ss now t1).0 ≡ t')

  pub put_checked-PutWritten :
      (t t' : Tables) (g : GroupId) (from : ℕ) (es : List Entry) (ss : List Standing) (now : ℤ)
      (a : Applied)
      → IsCoherent X ecbor scbor t
      → put_checked X ecbor scbor me t t g from es ss now ≡ ok (t', a)
      → PutWritten t g ss now t'
  unfolding put_checked
  put_checked-PutWritten t t' g from es ss now a coherent h =
      let (r, found, h1) = passed_both (require t g) _ h in
      let (c, held, h2) = passed_both (chain X ecbor t g) _ h1 in
      let overlap = min (len c - from) (length es) in
      let fresh = drop overlap es in
      let (_, alike, h3) =
        passed_both
          (fail_at X ecbor scbor me g (diverges X ecbor scbor me c from (take overlap es))) _ h2 in
      let (_, no_gap, h4) =
        passed_both (fail_if (ltb (len c) from) (StoreError.gap (len c) from)) _ h3 in
      let ((d, n), grew, h5) = passed_both (extend_by X ecbor scbor me c fresh) _ h4 in
      let (t1, wrote, h6) = passed_both (write_head X ecbor scbor me g (len c) d fresh n t) _ h5 in
      let ready = read-IsReady t g r c coherent found held in
      let (grows, counted) = extend_by-Grows X ecbor scbor me c d fresh n ready.loads grew in
      (r, c, d, fresh, n, t1, ready, grows, counted, wrote, ap (λ x. x.0) (ok-injective h6))

  put_checked-IsCoherent :
      (t t' : Tables) (g : GroupId) (from : ℕ) (es : List Entry) (ss : List Standing) (now : ℤ)
      (a : Applied)
      → IsCoherent X ecbor scbor t
      → put_checked X ecbor scbor me t t g from es ss now ≡ ok (t', a)
      → IsCoherent X ecbor scbor t'
  put_checked-IsCoherent t t' g from es ss now a coherent h =
      let (r, c, d, fresh, n, t1, ready, grows, counted, wrote, ends) =
        put_checked-PutWritten t t' g from es ss now a coherent h in
      subst (IsCoherent X ecbor scbor) ends
        (written-IsCoherent t t1 g c d r fresh n ss now coherent ready (grows, counted) wrote)

  -- `put` keeps the tables coherent, whatever a peer sent.
  pub put-IsCoherent :
      (t : Tables) (g : GroupId) (from : ℕ) (es : List Entry) (ss : List Standing) (now : ℤ)
      → IsCoherent X ecbor scbor t
      → IsCoherent X ecbor scbor (put X ecbor scbor me t g from es ss now).0
  put-IsCoherent t g from es ss now coherent =
      or_keep-IsCoherent t (put_checked X ecbor scbor me t t g from es ss now) coherent
        (λ t' a h. put_checked-IsCoherent t t' g from es ss now a coherent h)

  note_news-IsLocal :
      (t : Tables) (g : GroupId)
      → IsLocal X ecbor scbor t g
      → IsLocal X ecbor scbor (Tables.note_news g t) g
  unfolding Tables.note_news
  note_news-IsLocal t g local = record {
    in_step = λ r found. local.in_step r (sym (note_news-get g g t) ∙ found);
    unknown = λ gone. local.unknown (sym (note_news-get g g t) ∙ gone);
    ordered = local.ordered;
  }

  signed-eq :
      (x : Chain × Result ChainError Entry) (d : Chain) (e : Entry)
      → signed X ecbor scbor me x ≡ ok (d, e)
      → x ≡ (d, ok e)
  signed-eq (c, ok e') d e h = ap (λ y. (y.0, ok y.1)) (ok-injective h)
  signed-eq (c, err x) d e h = absurd (ok≢err (sym h))

  abbrev pub published : Tables → GroupId → Chain → ℤ → Tables
  published t g d at = Tables.note_news g (
      update_group g (λ r. record r { name = name d; last_synced = at })
        (Tables.rebuild_caches X scbor g d (Tables.load_standings X scbor t g) t))

  published-IsCoherent :
      (t t1 : Tables) (g : GroupId) (c d : Chain) (r : GroupRow) (e : Entry) (at : ℤ)
      → IsCoherent X ecbor scbor t
      → IsReady X ecbor scbor t g c r
      → Grows X ecbor scbor me c (e ∷ []) d
      → write_head X ecbor scbor me g (len c) d (e ∷ []) 1 t ≡ ok t1
      → IsCoherent X ecbor scbor (published t1 g d at)
  published-IsCoherent t t1 g c d r e at coherent ready grows wrote =
      let (t2, wrote', (r', moved, only, rows)) =
        write_head-Moved X ecbor scbor me t g c d r (e ∷ []) 1 ready grows refl in
      let set = Tables.load_standings X scbor t2 g in
      let sorted = subst Map.IsSorted (sym rows) (coherent g).ordered in
      let t3 = Tables.rebuild_caches X scbor g d set t2 in
      let k : GroupRow → GroupRow = λ x. record x { name = name d; last_synced = at } in
      let t4 = update_group g k t3 in
      subst (λ x. IsCoherent X ecbor scbor (published x g d at)) (ok-injective (sym wrote' ∙ wrote))
        (OnlyAt-IsCoherent X ecbor scbor g t (Tables.note_news g t4)
          (OnlyAt-trans g t t2 (Tables.note_news g t4) only (
            OnlyAt-trans g t2 t3 (Tables.note_news g t4) (rebuild-OnlyAt X scbor g d set t2) (
              OnlyAt-trans g t3 t4 (Tables.note_news g t4) (update_group-OnlyAt g k t3)
                (note_news-OnlyAt g t4))))
          (note_news-IsLocal t4 g (
            renamed-IsLocal X ecbor scbor me t2 g d set r' at moved
              (load-Tracks X ecbor scbor t2 g sorted)))
          coherent)

  -- How an `author` that succeeds wrote its tables.
  abbrev pub AuthorWritten : Tables → GroupId → ℤ → Tables → Type 0
  AuthorWritten t g at t' =
      (r : GroupRow) × (c : Chain) × (d : Chain) × (e : Entry) × (t1 : Tables) × IsReady X ecbor
        scbor t g c r
      × Grows X ecbor scbor me c (e ∷ []) d
      × (write_head X ecbor scbor me g (len c) d (e ∷ []) 1 t ≡ ok t1)
      × (published t1 g d at ≡ t')

  pub author_checked-AuthorWritten :
      (t t' : Tables) (key : X.Keypair) (g : GroupId) (op : Op) (at : ℤ) (e : Entry)
      → IsCoherent X ecbor scbor t
      → author_checked X ecbor scbor me t t key g op at ≡ ok (t', e)
      → AuthorWritten t g at t'
  unfolding author_checked
  author_checked-AuthorWritten t t' key g op at e' coherent h =
      let (r, found, h1) = passed_both (require t g) _ h in
      let (c, held, h2) = passed_both (chain X ecbor t g) _ h1 in
      let ((d, e), made, h3) =
        passed_both (signed X ecbor scbor me (author X ecbor c key op at)) _ h2 in
      let (t1, wrote, h4) =
        passed_both (write_head X ecbor scbor me g (len c) d (e ∷ []) 1 t) _ h3 in
      let ready = read-IsReady t g r c coherent found held in
      let grows =
        extended-Grows X ecbor scbor me c d (e ∷ []) ready.loads (
          author-extend X ecbor c d key op at e
            (signed-eq (author X ecbor c key op at) d e made)) in
      (r, c, d, e, t1, ready, grows, wrote, ap (λ x. x.0) (ok-injective h4))

  author_checked-IsCoherent :
      (t t' : Tables) (key : X.Keypair) (g : GroupId) (op : Op) (at : ℤ) (e : Entry)
      → IsCoherent X ecbor scbor t
      → author_checked X ecbor scbor me t t key g op at ≡ ok (t', e)
      → IsCoherent X ecbor scbor t'
  author_checked-IsCoherent t t' key g op at e' coherent h =
      let (r, c, d, e, t1, ready, grows, wrote, ends) =
        author_checked-AuthorWritten t t' key g op at e' coherent h in
      subst (IsCoherent X ecbor scbor) ends
        (published-IsCoherent t t1 g c d r e at coherent ready grows wrote)

  -- `author` keeps the tables coherent.
  pub author-IsCoherent :
      (t : Tables) (key : X.Keypair) (g : GroupId) (op : Op) (at : ℤ)
      → IsCoherent X ecbor scbor t
      → IsCoherent X ecbor scbor (author_from X ecbor scbor me t t key g op at).0
  author-IsCoherent t key g op at coherent =
      or_keep-IsCoherent t (author_checked X ecbor scbor me t t key g op at) coherent
        (λ t' e h. author_checked-IsCoherent t t' key g op at e coherent h)

  -- Forgetting a group leaves no row of it.
  pub forget-IsCoherent :
      (t : Tables) (g : GroupId)
      → IsCoherent X ecbor scbor t
      → IsCoherent X ecbor scbor (Tables.forget g t)
  unfolding Tables.forget
  forget-IsCoherent t g coherent =
      OnlyAt-IsCoherent X ecbor scbor g t (Tables.forget g t) (forget-OnlyAt g t)
        (record {
          in_step = λ r found.
              absurd (ground (arith, found, Keyed.find-erase g g t.groups, bytes_eq_refl g));
          unknown = λ gone. at_group_self g [] t.group_entries;
          ordered = subst Map.IsSorted (sym (at_group_self g [] t.group_standings)) tt;
        })
        coherent
