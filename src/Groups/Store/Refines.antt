-- ===== src/Groups/Store/Refines.antt =====
-- The sync over the store refines the ledger of chains: sync.rs over store.rs.
use p2parchiver.Common.{
  ◌≡◌, refl, sym, ap, ◌∙◌, subst, inl, inr, Bool, false, Option, none, List, [], if◌then◌else◌,
  is_some, Option-cases,
}
use p2parchiver.Common.Bytes.{Bytes}
use p2parchiver.Common.Result.{Result, ok, err, Result-cases}
use p2parchiver.Common.Int.{ℤ}
use p2parchiver.Platform.{Platform, PeerId, Cbor}
use p2parchiver.Groups.Id.{GroupId}
use p2parchiver.Groups.Chain.Types.{Entry, EntryBody}
use p2parchiver.Groups.Chain.{Chain, load, len, entries}
use p2parchiver.Groups.Standing.{Standing, StandingBody, StandingSet, Position}
use p2parchiver.Groups.Sync.Wire.{Applied, StoreError}
use p2parchiver.Groups.Store.Tables
use p2parchiver.Groups.Store.Tables.{held_of, head_is, Tables, GroupRecord, StandingRow}
use p2parchiver.Groups.Store.Reads.{chain, chain_error}
use p2parchiver.Groups.Store.Coherent.{IsCoherent}
use mathlib.Core.Path.{ap₂}
use p2parchiver.Groups.Store.Tables.{row_of, at_group, update_group, load_rows}
use p2parchiver.Groups.Store.Frame.{OnlyAt, OnlyAt-trans, rebuild-OnlyAt}
use p2parchiver.Groups.Chain.Extend.{load-IsValid}
use p2parchiver.Groups.Store.Reads.{chain, chain_error}
use p2parchiver.Groups.Store.Writes.{finish_put, put, or_keep}
use p2parchiver.Groups.Store.PutKeeps.{finish_put-IsLocal}
use p2parchiver.Groups.Store.Writes.{
  author_standing, adopt, insert_pending, write_own, refresh_digest, refreshed, own_written,
  adopted, adopt_chain,
}
use p2parchiver.Groups.Store.Own.{write_own_lem, answer_with-tables}
use p2parchiver.Groups.Store.Adopt.{insert_pending-IsReady, put_end, adopted-tables}
use p2parchiver.Groups.Store.Ledger.{
  view, view_of, Learned, Dropped, Learned-trans, Dropped-trans, Wrote, Wrote-refl, Wrote-Learned,
  rebuilt-known, finished-view, put-Wrote, author-Wrote, forget-Dropped, chain-entries,
}
use p2parchiver.Net.Admission.{Instant}
use p2parchiver.Net.AdmittedPeers.{AdmittedPeers}
use p2parchiver.Groups.Sync.Machine.{GroupEvent, GroupSync, on}
use p2parchiver.Groups.Sync.Keeps.{Keeps, on-keeps, tick-keeps, is_tick}
use p2parchiver.Groups.Store.Composed.{groups, groups-Keeps}

module _ (X : Platform) (ecbor : Cbor EntryBody) (scbor : Cbor StandingBody) (me : PeerId) where
  -- A write that keeps which groups are known and their entries.
  same_entries :
      (t t' : Tables) (g : GroupId)
      → OnlyAt g t t'
      → is_some (Tables.get t' g) ≡ is_some (Tables.get t g)
      → t'.group_entries g ≡ t.group_entries g
      → Wrote X ecbor scbor me t t'
  same_entries t t' g only known es = (
    g,
    only,
    subst (Learned X ecbor (view X ecbor t g))
        (sym (ap₂ (view_of X ecbor) known (chain-entries X ecbor t t' g es)))
        (Learned.stays (view X ecbor t g)),
  )

  own-known :
      (t : Tables) (g : GroupId) (position : Position) (s : Standing) (body : StandingBody)
      → is_some (Tables.get (write_own X ecbor scbor me t g position s body) g)
        ≡ is_some (Tables.get t g)
  own-known t g position s body =
      let (only, rows, es, found, lost) = write_own_lem X ecbor scbor me t g position s body in
      elim (Option-cases (Tables.get t g)) [
        | inl gone ↦ ap is_some (lost gone) ∙ sym (ap is_some gone)
        | inr (r, there) ↦ ap is_some (found r there) ∙ sym (ap is_some there)
      ]

  rebuilt-entries :
      (t : Tables) (g : GroupId) (c : Chain) (set : StandingSet)
      → (Tables.rebuild_caches X scbor g c set t).group_entries ≡ t.group_entries
  unfolding Tables.rebuild_caches
  rebuilt-entries t g c set = refl

  refreshed-Wrote :
      (t t1 : Tables) (g : GroupId) (r : Result StoreError Chain)
      → OnlyAt g t t1
      → is_some (Tables.get t1 g) ≡ is_some (Tables.get t g)
      → t1.group_entries g ≡ t.group_entries g
      → Wrote X ecbor scbor me t (refreshed X ecbor scbor me g t1 r).0
  refreshed-Wrote t t1 g (err e) only known es = same_entries t t1 g only known es
  refreshed-Wrote t t1 g (ok c) only known es =
      let set = Tables.load_standings X scbor t1 g in
      let t2 = Tables.rebuild_caches X scbor g c set t1 in
      same_entries t t2 g (OnlyAt-trans g t t1 t2 only (rebuild-OnlyAt X scbor g c set t1))
        (rebuilt-known X ecbor scbor me t1 g c set g ∙ known)
        (ap (λ x. x g) (rebuilt-entries t1 g c set) ∙ es)

  own_written-Wrote :
      (t : Tables) (g : GroupId) (position : Position)
      (r : Result StoreError (Standing × StandingBody))
      → Wrote X ecbor scbor me t (own_written X ecbor scbor me t g position r).0
  unfolding refresh_digest
  own_written-Wrote t g position (err e) = Wrote-refl X ecbor scbor me t
  own_written-Wrote t g position (ok (s, body)) =
      let t1 = write_own X ecbor scbor me t g position s body in
      let (only, rows, es, found, lost) = write_own_lem X ecbor scbor me t g position s body in
      subst (Wrote X ecbor scbor me t)
        (sym (answer_with-tables X ecbor scbor me s (refresh_digest X ecbor scbor me t1 g)))
        (refreshed-Wrote t t1 g (chain X ecbor t1 g) only (own-known t g position s body)
          (ap (λ x. x g) es))

  author_standing-Wrote :
      (t : Tables) (key : X.Keypair) (g : GroupId) (position : Position) (username : Bytes) (at : ℤ)
      → Wrote X ecbor scbor me t (author_standing X ecbor scbor me t key g position username at).0
  unfolding author_standing
  author_standing-Wrote t key g position username at = own_written-Wrote t g position _

  unknown-view : (t : Tables) (g : GroupId) → Tables.get t g ≡ none → view X ecbor t g ≡ none
  unknown-view t g gone = ap (λ o. view_of X ecbor (is_some o) (chain X ecbor t g)) gone

  new-Wrote :
      (t : Tables) (c : Chain) (ss : List Standing) (now : ℤ)
      → IsCoherent X ecbor scbor t
      → load X ecbor (entries c) ≡ ok c
      → Tables.get t c.id ≡ none
      → Wrote X ecbor scbor me t
          (adopted X ecbor scbor me c (
            put X ecbor scbor me
              (insert_pending X ecbor scbor me c now t)
              c.id
              (len c)
              []
              ss
              now)).0
  new-Wrote t c ss now coherent loads gone =
      let g = c.id in
      let t1 = insert_pending X ecbor scbor me c now t in
      let (s, ready, sorted, only) =
        insert_pending-IsReady X ecbor scbor me t c now coherent loads gone in
      let last = (finish_put X ecbor scbor me g c c 0 ss now t1).0 in
      let (_, only') = finish_put-IsLocal X ecbor scbor me t1 g c c 0 ss now s ready sorted in
      let reached : (adopted X ecbor scbor me c (put X ecbor scbor me t1 g (len c) [] ss now)).0
          ≡ last =
        adopted-tables X ecbor scbor me c (put X ecbor scbor me t1 g (len c) [] ss now)
        ∙ ap (λ x. (or_keep X ecbor scbor me t1 x).0)
            (put_end X ecbor scbor me t1 g c s ss now ready) in
      subst (Wrote X ecbor scbor me t) (sym reached) (
        g,
        OnlyAt-trans g t t1 last only only',
        subst (λ o. Learned X ecbor o (view X ecbor last g)) (sym (unknown-view t g gone))
            (subst (Learned X ecbor none)
              (sym (finished-view X ecbor scbor me t1 g c c 0 ss now s ready))
              (Learned.learns c loads)),
      )

  loaded-Wrote :
      (t : Tables) (es : List Entry) (ss : List Standing) (now : ℤ) (c : Chain)
      → IsCoherent X ecbor scbor t
      → load X ecbor (entries c) ≡ ok c
      → Wrote X ecbor scbor me t (adopt_chain X ecbor scbor me t es ss now (ok c)).0
  loaded-Wrote t es ss now c coherent loads =
      let chosen : Bool → Tables × Result StoreError Applied = λ b.
        if b
        then put X ecbor scbor me t c.id 0 es ss now
        else adopted X ecbor scbor me c (
            put X ecbor scbor me (insert_pending X ecbor scbor me c now t) c.id (len c) [] ss
              now) in
      elim (Option-cases (Tables.get t c.id)) [
        | inl gone ↦
            subst (λ o. Wrote X ecbor scbor me t (chosen (is_some o)).0) (sym gone)
              (new-Wrote t c ss now coherent loads gone)
        | inr (r, there) ↦
            subst (λ o. Wrote X ecbor scbor me t (chosen (is_some o)).0) (sym there)
              (put-Wrote X ecbor scbor me t c.id 0 es ss now coherent)
      ]

  adopt-Wrote :
      (t : Tables) (es : List Entry) (ss : List Standing) (now : ℤ)
      → IsCoherent X ecbor scbor t
      → Wrote X ecbor scbor me t (adopt X ecbor scbor me t es ss now).0
  unfolding adopt
  adopt-Wrote t es ss now coherent = elim (Result-cases (load X ecbor es)) [
    | inl (e, failed) ↦
        subst
          (λ r.
            Wrote X ecbor scbor me t (adopt_chain X ecbor scbor me t es ss now (chain_error r)).0)
          (sym failed) (Wrote-refl X ecbor scbor me t)
    | inr (c, h) ↦
        subst
          (λ r.
            Wrote X ecbor scbor me t (adopt_chain X ecbor scbor me t es ss now (chain_error r)).0)
          (sym h)
          (loaded-Wrote t es ss now c coherent
            (ap (load X ecbor) (load-IsValid X ecbor es c h).1 ∙ h))
  ]

  -- Coherent, with what was held at the start and perhaps more.
  abbrev Reached : Tables → Tables → Type 0
  Reached o t =
      IsCoherent X ecbor scbor t
      × ((h : GroupId) → Learned X ecbor (view X ecbor o h) (view X ecbor t h))

  further :
      (o t t' : Tables)
      → Reached o t
      → IsCoherent X ecbor scbor t'
      → Wrote X ecbor scbor me t t'
      → Reached o t'
  further o t t' (_, before) coherent wrote = (
    coherent,
    λ h.
        Learned-trans X ecbor (view X ecbor o h) (view X ecbor t h) (view X ecbor t' h) (before h)
          (Wrote-Learned X ecbor scbor me t t' h wrote),
  )

  groups-Reached : (o : Tables) → Keeps X (groups X ecbor scbor me) (Reached o)
  groups-Reached o =
      let kept = groups-Keeps X ecbor scbor me in
      record {
        put = λ t g from es ss now r.
            further o t _ r (kept.put t g from es ss now r.0)
              (put-Wrote X ecbor scbor me t g from es ss now r.0);
        adopt = λ t es ss now r.
            further o t _ r (kept.adopt t es ss now r.0) (adopt-Wrote t es ss now r.0);
        author = λ t key g op at r.
            further o t _ r (kept.author t key g op at r.0)
              (author-Wrote X ecbor scbor me t key g op at r.0);
        author_standing = λ t key g position username at r.
            further o t _ r (kept.author_standing t key g position username at r.0)
              (author_standing-Wrote t key g position username at);
      }

  -- What an event may make of the chain of one group: a tick may drop it, any other event learns.
  abbrev pub Allowed : GroupEvent → Option Chain → Option Chain → Type 0
  Allowed (GroupEvent.tick now at) = Dropped X ecbor
  Allowed _ = Learned X ecbor

  learned :
      (s : GroupSync X (groups X ecbor scbor me)) (now : Instant) (event : GroupEvent)
      (admitted : AdmittedPeers) (h : GroupId)
      → IsCoherent X ecbor scbor s.store
      → is_tick event ≡ false
      → Learned X ecbor
          (view X ecbor s.store h)
          (view X ecbor (on X (groups X ecbor scbor me) s now event admitted).0.store h)
  learned s now event admitted h coherent other =
      (on-keeps X (groups X ecbor scbor me) (Reached s.store) (groups-Reached s.store) s now event
          admitted other (coherent, λ k. Learned.stays (view X ecbor s.store k))).1
        h

  -- Seen as a ledger of one chain for each group, a tick leaves the chain of each group or drops it,
  -- and any other event leaves it, learns one that loads where there was none, or adds entries at its
  -- end so that it loads: from coherent tables no entry that is held is ever replaced.
  pub sync_refines_ledger :
      (s : GroupSync X (groups X ecbor scbor me)) (now : Instant) (event : GroupEvent)
      (admitted : AdmittedPeers) (h : GroupId)
      → IsCoherent X ecbor scbor s.store
      → Allowed event
          (view X ecbor s.store h)
          (view X ecbor (on X (groups X ecbor scbor me) s now event admitted).0.store h)
  sync_refines_ledger s now (GroupEvent.tick now' at) admitted h coherent =
      tick-keeps X (groups X ecbor scbor me)
        (λ t. Dropped X ecbor (view X ecbor s.store h) (view X ecbor t h))
        (λ t g before.
          Dropped-trans X ecbor (view X ecbor s.store h) (view X ecbor t h)
            (view X ecbor (Tables.forget g t) h) before (forget-Dropped X ecbor scbor me t g h))
        s now now' at admitted (Dropped.stays (view X ecbor s.store h))
  sync_refines_ledger s now (GroupEvent.heads peer hs) admitted h coherent =
      learned s now (GroupEvent.heads peer hs) admitted h coherent refl
  sync_refines_ledger s now (GroupEvent.entries peer g from es ss) admitted h coherent =
      learned s now (GroupEvent.entries peer g from es ss) admitted h coherent refl
  sync_refines_ledger s now (GroupEvent.unavailable peer g) admitted h coherent =
      learned s now (GroupEvent.unavailable peer g) admitted h coherent refl
  sync_refines_ledger s now (GroupEvent.fetch_failed peer g) admitted h coherent =
      learned s now (GroupEvent.fetch_failed peer g) admitted h coherent refl
  sync_refines_ledger s now (GroupEvent.ask_failed peer) admitted h coherent =
      learned s now (GroupEvent.ask_failed peer) admitted h coherent refl
