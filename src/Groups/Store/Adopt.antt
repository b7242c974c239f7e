-- ===== src/Groups/Store/Adopt.antt =====
-- A group that a peer offers: store.rs, adopt.
use p2parchiver.Common.{
  ◌-◌, min, ◌≡◌, refl, sym, ap, ◌∙◌, subst, inl, inr, Bool, true, false, none, some, List, [],
  arith, ltb, if◌then◌else◌, is_some, Option-cases,
}
use p2parchiver.Common.Bytes.{bytes_eq_refl}
use p2parchiver.Common.Map
use p2parchiver.Common.Map.{Map}
use p2parchiver.Common.Result.{Result, ok, err, Result-cases}
use p2parchiver.Common.Int.{ℤ}
use p2parchiver.Platform.{Platform, PeerId, Cbor}
use p2parchiver.Common.Keyed
use p2parchiver.Common.Keyed.{Keyed}
use p2parchiver.Groups.Id.{GroupId}
use p2parchiver.Groups.Chain.Types.{Entry, EntryBody}
use p2parchiver.Groups.Chain.{Chain, load, fold, head, len, name, entries}
use p2parchiver.Groups.Standing.{Standing, StandingBody, StandingSet}
use p2parchiver.Groups.Members
use p2parchiver.Groups.Members.{Members, Member}
use p2parchiver.Groups.Sync.Wire.{GroupRow, Applied, State, StoreError, pending}
use p2parchiver.Groups.Store.Tables
use p2parchiver.Groups.Store.Tables.{held_of, head_is, Tables, GroupRecord, StandingRow}
use p2parchiver.Groups.Store.Reads.{chain_error}
use p2parchiver.Groups.Store.Coherent.{IsCoherent, IsReady, kept_rows, at_group_self}
use p2parchiver.Groups.Store.Numbered.{enumerate, insert_entries-enumerate}
use p2parchiver.Groups.Store.Tables.{row_of, at_group, update_group, load_rows}
use p2parchiver.Groups.Store.Frame.{
  OnlyAt, OnlyAt-trans, update_group-OnlyAt, get-update_group, write_entries-OnlyAt, put_row-OnlyAt,
  rebuild-OnlyAt, OnlyAt-IsCoherent,
}
use p2parchiver.Groups.Chain.Extend.{load-IsValid}
use p2parchiver.Groups.Store.Reads.{chain_error}
use p2parchiver.Groups.Store.Growth.{InStep-chain}
use p2parchiver.Groups.Store.Writes.{finish_put, put, or_keep, diverges}
use p2parchiver.Groups.Store.PutKeeps.{finish_put-IsLocal}
use p2parchiver.Groups.Store.Writes.{
  put_checked, adopt, insert_pending, insert_group, adopted, adopt_chain, new_row,
}
use p2parchiver.Groups.Store.Ops.{put-IsCoherent}

module _ (X : Platform) (ecbor : Cbor EntryBody) (scbor : Cbor StandingBody) (me : PeerId) where
  abbrev first_row : Chain → State → ℤ → GroupRow
  first_row c state at = record (new_row X c.id (name c) c.admin state at) {
    head_seq = len c;
    head_hash = head c;
  }

  -- A group that is inserted is ready with its chain, and no other group changes.
  insert_group-IsReady :
      (t : Tables) (c : Chain) (state : State) (at : ℤ)
      → load X ecbor (entries c) ≡ ok c
      → t.group_entries c.id ≡ []
      → IsReady X ecbor scbor
          (insert_group X ecbor scbor me c state at t)
          c.id
          c
          (first_row c state at)
        × OnlyAt c.id t (insert_group X ecbor scbor me c state at t)
        × ((insert_group X ecbor scbor me c state at t).group_standings ≡ t.group_standings)
  unfolding insert_group Tables.set_head Tables.write_entries
  insert_group-IsReady t c state at loads empty =
      let g = c.id in
      let row = new_row X g (name c) c.admin state at in
      let made : GroupRecord = record { row = row; news = 0 } in
      let t1 = record t { groups = Keyed.put g made t.groups } in
      let t2 = Tables.write_entries g 0 (entries c) t1 in
      let f : GroupRow → GroupRow = λ r. record r { head_seq = len c; head_hash = head c } in
      let found : Tables.get t2 g ≡ some row = ap row_of (
        Keyed.find-put g g made t.groups
        ∙ ap (λ b. if b then some made else Keyed.find g t.groups) (bytes_eq_refl g)) in
      let all : t2.group_entries g ≡ enumerate 0 (entries c) =
        at_group_self g (Tables.insert_entries 0 (entries c) (t.group_entries g)) t.group_entries
        ∙ ap (Tables.insert_entries 0 (entries c)) empty
        ∙ insert_entries-enumerate 0 [] (entries c) refl in
      let yes : Tables × Bool = (update_group g f t2, true) in
      let no : Tables × Bool = (t2, false) in
      let set : (if head_is 0 (Tables.get t2 g) then yes else no) ≡ yes =
        ap (λ b. if b then yes else no) {y = true} (ap (head_is 0) found) in
      subst
        (λ x.
          IsReady X ecbor scbor x.0 g c (first_row c state at)
          × OnlyAt g t x.0
          × (x.0.group_standings ≡ t.group_standings))
        (sym set)
        (
          record {
            found = get-update_group g f t2 row found;
            loads = loads;
            numbered = all;
            own_id = refl;
            own_admin = refl;
            at_head = refl;
            at_hash = refl;
          },
          OnlyAt-trans g t t1 (update_group g f t2) (put_row-OnlyAt g made t) (
              OnlyAt-trans g t1 t2 (update_group g f t2) (write_entries-OnlyAt g 0 (entries c) t1)
                (update_group-OnlyAt g f t2)),
          refl,
        )

  -- A rebuild from any set keeps a group ready and its standings sorted.
  rebuild-IsReady :
      (t : Tables) (g : GroupId) (c : Chain) (set : StandingSet) (r : GroupRow)
      → IsReady X ecbor scbor t g c r
      → Map.IsSorted (t.group_standings g)
      → (s : GroupRow) × IsReady X ecbor scbor (Tables.rebuild_caches X scbor g c set t) g c s
        × Map.IsSorted ((Tables.rebuild_caches X scbor g c set t).group_standings g)
  unfolding Tables.rebuild_caches
  rebuild-IsReady t g c set r ready sorted =
      let members = Members.name_from set (fold X c) in
      let digest = Members.standings_digest X set members in
      let rows = kept_rows X ecbor scbor c set (t.group_standings g) in
      let t1 = record t {
        group_members = at_group g members t.group_members;
        group_standings = at_group g rows t.group_standings;
      } in
      let f : GroupRow → GroupRow = λ x. record x { standings_digest = digest } in
      (
        f r,
        record {
          found = get-update_group g f t1 r ready.found;
          loads = ready.loads;
          numbered = ready.numbered;
          own_id = ready.own_id;
          own_admin = ready.own_admin;
          at_head = ready.at_head;
          at_hash = ready.at_hash;
        },
        subst Map.IsSorted (sym (at_group_self g rows t.group_standings))
            (Map.retain-IsSorted (λ p row. Map.contains p members) (t.group_standings g) sorted),
      )

  pub insert_pending-IsReady :
      (t : Tables) (c : Chain) (now : ℤ)
      → IsCoherent X ecbor scbor t
      → load X ecbor (entries c) ≡ ok c
      → Tables.get t c.id ≡ none
      → (s : GroupRow) × IsReady X ecbor scbor (insert_pending X ecbor scbor me c now t) c.id c s
        × Map.IsSorted ((insert_pending X ecbor scbor me c now t).group_standings c.id)
        × OnlyAt c.id t (insert_pending X ecbor scbor me c now t)
  unfolding insert_pending
  insert_pending-IsReady t c now coherent loads gone =
      let t1 = insert_group X ecbor scbor me c pending now t in
      let (ready, only, rows) =
        insert_group-IsReady t c pending now loads ((coherent c.id).unknown gone) in
      let (s, ready', sorted') =
        rebuild-IsReady t1 c.id c [] (first_row c pending now) ready
          (subst (λ x. Map.IsSorted (x c.id)) (sym rows) (coherent c.id).ordered) in
      (
        s,
        ready',
        sorted',
        OnlyAt-trans c.id t t1 (Tables.rebuild_caches X scbor c.id c [] t1) only
            (rebuild-OnlyAt X scbor c.id c [] t1),
      )

  -- `put` of no entry, from the end of a ready group's chain, takes the standings in.
  pub put_end :
      (t : Tables) (g : GroupId) (c : Chain) (r : GroupRow) (ss : List Standing) (now : ℤ)
      → IsReady X ecbor scbor t g c r
      → put_checked X ecbor scbor me t t g (len c) [] ss now
        ≡ ok (finish_put X ecbor scbor me g c c 0 ss now t)
  unfolding put_checked diverges
  put_end t g c r ss now ready =
      let held = InStep-chain X ecbor scbor me t g c ready.loads ready.numbered in
      let nothing : min (len c - len c) 0 ≡ 0 = ground arith in
      let reached : ltb (len c) (len c) ≡ false = ground arith in
      rw ready.found (rw held (rw nothing (rw reached refl)))

  pub adopted-tables :
      (c : Chain) (x : Tables × Result StoreError Applied) → (adopted X ecbor scbor me c x).0 ≡ x.0
  adopted-tables c (t, ok a) = refl
  adopted-tables c (t, err e) = refl

  new-IsCoherent :
      (t : Tables) (c : Chain) (ss : List Standing) (now : ℤ)
      → IsCoherent X ecbor scbor t
      → load X ecbor (entries c) ≡ ok c
      → Tables.get t c.id ≡ none
      → IsCoherent X ecbor scbor
          (put X ecbor scbor me (insert_pending X ecbor scbor me c now t) c.id (len c) [] ss now).0
  new-IsCoherent t c ss now coherent loads gone =
      let t1 = insert_pending X ecbor scbor me c now t in
      let (s, ready, sorted, only) = insert_pending-IsReady t c now coherent loads gone in
      let (local, only') =
        finish_put-IsLocal X ecbor scbor me t1 c.id c c 0 ss now s ready sorted in
      subst (λ x. IsCoherent X ecbor scbor (or_keep X ecbor scbor me t1 x).0)
        (sym (put_end t1 c.id c s ss now ready))
        (OnlyAt-IsCoherent X ecbor scbor c.id t (finish_put X ecbor scbor me c.id c c 0 ss now t1).0
          (OnlyAt-trans c.id t t1 (finish_put X ecbor scbor me c.id c c 0 ss now t1).0 only only')
          local coherent)

  loaded-IsCoherent :
      (t : Tables) (es : List Entry) (ss : List Standing) (now : ℤ) (c : Chain)
      → IsCoherent X ecbor scbor t
      → load X ecbor (entries c) ≡ ok c
      → IsCoherent X ecbor scbor (adopt_chain X ecbor scbor me t es ss now (ok c)).0
  loaded-IsCoherent t es ss now c coherent loads = elim (Option-cases (Tables.get t c.id)) [
    | inl gone ↦
        subst
          (λ o.
            IsCoherent X ecbor scbor
              (if is_some o
                then put X ecbor scbor me t c.id 0 es ss now
                else adopted X ecbor scbor me c (
                    put X ecbor scbor me (insert_pending X ecbor scbor me c now t) c.id (len c) []
                      ss now)).0)
          (sym gone)
          (subst (IsCoherent X ecbor scbor)
            (sym (
              adopted-tables c (
                put X ecbor scbor me (insert_pending X ecbor scbor me c now t) c.id (len c) [] ss
                  now)))
            (new-IsCoherent t c ss now coherent loads gone))
    | inr (r, there) ↦
        subst
          (λ o.
            IsCoherent X ecbor scbor
              (if is_some o
                then put X ecbor scbor me t c.id 0 es ss now
                else adopted X ecbor scbor me c (
                    put X ecbor scbor me (insert_pending X ecbor scbor me c now t) c.id (len c) []
                      ss now)).0)
          (sym there) (put-IsCoherent X ecbor scbor me t c.id 0 es ss now coherent)
  ]

  -- `adopt` keeps the tables coherent, for a chain that does not load too.
  pub adopt-IsCoherent :
      (t : Tables) (es : List Entry) (ss : List Standing) (now : ℤ)
      → IsCoherent X ecbor scbor t
      → IsCoherent X ecbor scbor (adopt X ecbor scbor me t es ss now).0
  unfolding adopt
  adopt-IsCoherent t es ss now coherent = elim (Result-cases (load X ecbor es)) [
    | inl (e, failed) ↦
        subst
          (λ r.
            IsCoherent X ecbor scbor (adopt_chain X ecbor scbor me t es ss now (chain_error r)).0)
          (sym failed) coherent
    | inr (c, h) ↦
        subst
          (λ r.
            IsCoherent X ecbor scbor (adopt_chain X ecbor scbor me t es ss now (chain_error r)).0)
          (sym h)
          (loaded-IsCoherent t es ss now c coherent
            (ap (load X ecbor) (load-IsValid X ecbor es c h).1 ∙ h))
  ]
