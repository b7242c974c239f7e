-- ===== src/Groups/Store/PutKeeps.antt =====
-- What `put` and `author` leave behind: store.rs.
use p2parchiver.Common.{
  ℕ, ◌≡◌, refl, sym, ap, ◌∙◌, subst, inl, inr, Bool, true, ◌&&◌, Option, none, some, List, [], ◌∷◌,
  ◌++◌, arith, ◌==◌, if◌then◌else◌, Bool-cases, &&-eq-true,
}
use p2parchiver.Common.Map
use p2parchiver.Common.Map.{Map}
use p2parchiver.Common.Result.{ok, Result-cases, ok_or}
use p2parchiver.Common.Int.{ℤ}
use p2parchiver.Platform.{Platform, PeerId, Cbor}
use p2parchiver.Groups.Id.{GroupId}
use p2parchiver.Groups.Chain.Types.{EntryBody}
use p2parchiver.Groups.Chain.{Chain, fold, name}
use p2parchiver.Groups.Standing.{
  Standing, StandingBody, StandingSet, StandingError, Position, unanswered, «in», out, is_departure,
  next_seq, Held,
}
use p2parchiver.Groups.Standing
use p2parchiver.Groups.Members
use p2parchiver.Groups.Members.{Members, Member}
use p2parchiver.Groups.Sync.Wire.{GroupRow}
use p2parchiver.Groups.Store.Tables
use p2parchiver.Groups.Store.Tables.{held_of, head_is, Tables, GroupRecord, StandingRow}
use p2parchiver.Groups.Store.Coherent.{
  Tracks, InStep, IsLocal, IsReady, load-Tracks, kept_rows, rebuild-InStep, at_group_self,
}
use p2parchiver.Groups.Store.Tables.{row_of, at_group, update_group, load_rows}
use p2parchiver.Groups.Store.Frame.{
  OnlyAt, OnlyAt-trans, update_group-OnlyAt, get-update_group, write_rows-OnlyAt, rebuild-OnlyAt,
}
use mathlib.Core.Option.{some-injective}
use p2parchiver.Groups.Store.Loaded.{loaded, decoded_row}
use p2parchiver.Groups.Store.Writes.{finish_put}
use p2parchiver.Groups.Store.Intake.{
  ever_mentioned, Intake, take_if, take_body, take_verified, take_standings,
}
use p2parchiver.Groups.Standing.Signing.{verify-Signed}

module _ (X : Platform) (ecbor : Cbor EntryBody) (scbor : Cbor StandingBody) (me : PeerId) where
  abbrev IntakeTracks : Intake X ecbor scbor me → Type 0
  IntakeTracks i = Tracks X ecbor scbor i.rows i.set

  verify-decode :
      (s : Standing) (g : GroupId) (body : StandingBody)
      → Standing.verify X scbor s g ≡ ok body
      → Standing.decode X scbor s ≡ ok body
  unfolding Standing.decode
  verify-decode s g body h =
      ap (λ o. ok_or o StandingError.malformed) (verify-Signed X scbor s g body h).1

  insert-won :
      (p : PeerId) (h : Held) (set : StandingSet)
      → (Standing.insert p h set).1 ≡ true
      → (Standing.insert p h set).0 ≡ Map.insert p h set
  unfolding Standing.insert
  insert-won p h set won = ground arith

  abbrev row_for : Standing → StandingBody → StandingRow
  row_for s body = record { seq = body.seq; position = body.position; standing = s }

  -- A statement that wins is written to the set and to the rows alike.
  won-Tracks :
      (rows : Map StandingRow) (set : StandingSet) (p : PeerId) (s : Standing) (body : StandingBody)
      → Standing.decode X scbor s ≡ ok body
      → Tracks X ecbor scbor rows set
      → (Standing.insert p (held_of (row_for s body) body) set).1 ≡ true
      → Tracks X ecbor scbor
          (Map.insert p (row_for s body) rows)
          (Standing.insert p (held_of (row_for s body) body) set).0
  won-Tracks rows set p s body decoded tracks won = record {
    ordered = Map.insert-IsSorted p (row_for s body) rows tracks.ordered;
    holds = λ q.
        ap (Map.get q) (insert-won p (held_of (row_for s body) body) set won)
        ∙ Map.get-insert p q (held_of (row_for s body) body) set
        ∙ chosen q
        ∙ ap (loaded X scbor) (sym (Map.get-insert p q (row_for s body) rows));
  }
    where
      chosen :
          (q : PeerId)
          → (if p == q then some (held_of (row_for s body) body) else Map.get q set)
            ≡ loaded X scbor (if p == q then some (row_for s body) else Map.get q rows)
      chosen q = elim (Bool-cases (p == q)) [
        | inl same ↦
            ap (λ b. if b then some (held_of (row_for s body) body) else Map.get q set) same
            ∙ sym (ap (decoded_row X scbor (row_for s body)) decoded)
            ∙ ap (λ b. loaded X scbor (if b then some (row_for s body) else Map.get q rows))
                (sym same)
        | inr other ↦
            ap (λ b. if b then some (held_of (row_for s body) body) else Map.get q set) other
            ∙ tracks.holds q
            ∙ ap (λ b. loaded X scbor (if b then some (row_for s body) else Map.get q rows))
                (sym other)
      ]

  abbrev taken_in :
      Intake X ecbor scbor me → PeerId → Standing → StandingBody → Bool → Intake X ecbor scbor me
  taken_in i p s body counts = record {
    set = (Standing.insert p (held_of (row_for s body) body) i.set).0;
    rows = Map.insert p (row_for s body) i.rows;
    departed = if is_departure body.position && counts then i.departed ++ p ∷ [] else i.departed;
  }

  if-Tracks :
      (named counts : Bool) (i : Intake X ecbor scbor me) (p : PeerId) (s : Standing)
      (body : StandingBody)
      → Standing.decode X scbor s ≡ ok body
      → IntakeTracks i
      → IntakeTracks (take_if X ecbor scbor me named i p s body counts)
  if-Tracks named counts i p s body decoded tracks =
      let won = (Standing.insert p (held_of (row_for s body) body) i.set).1 in
      elim (Bool-cases (named && won)) [
        | inl taken ↦
            subst (λ b. IntakeTracks (if b then taken_in i p s body counts else i)) (sym taken)
              (won-Tracks i.rows i.set p s body decoded tracks (&&-eq-true named won taken).1)
        | inr passed ↦
            subst (λ b. IntakeTracks (if b then taken_in i p s body counts else i)) (sym passed)
              tracks
      ]

  body-Tracks :
      (c : Chain) (i : Intake X ecbor scbor me) (s : Standing) (body : StandingBody)
      (o : Option PeerId)
      → Standing.decode X scbor s ≡ ok body
      → IntakeTracks i
      → IntakeTracks (take_body X ecbor scbor me c i s body o)
  body-Tracks c i s body none decoded tracks = tracks
  body-Tracks c i s body (some p) decoded tracks =
      if-Tracks (ever_mentioned X ecbor scbor me c p) (Members.contains (fold X c) p) i p s body
        decoded tracks

  -- Taking standings in keeps the set in step with the rows.
  take-Tracks :
      (g : GroupId) (c : Chain) (i : Intake X ecbor scbor me) (ss : List Standing)
      → IntakeTracks i
      → IntakeTracks (take_standings X ecbor scbor me g c i ss)
  unfolding take_standings
  take-Tracks g c i [] tracks = tracks
  take-Tracks g c i (s ∷ ss) tracks = elim (Result-cases (Standing.verify X scbor s g)) [
    | inl (e, failed) ↦
        subst
          (λ r.
            IntakeTracks
              (take_standings X ecbor scbor me g c (take_verified X ecbor scbor me c i s r) ss))
          (sym failed) (take-Tracks g c i ss tracks)
    | inr (body, genuine) ↦
        subst
          (λ r.
            IntakeTracks
              (take_standings X ecbor scbor me g c (take_verified X ecbor scbor me c i s r) ss))
          (sym genuine)
          (take-Tracks g c (take_body X ecbor scbor me c i s body (X.parse_peer_id body.peer)) ss (
            body-Tracks c i s body (X.parse_peer_id body.peer) (verify-decode s g body genuine)
              tracks))
  ]

  -- Rows as a rebuild of a ready group leaves them are local.
  pub settled-IsLocal :
      (t t' : Tables) (g : GroupId) (d : Chain) (set : StandingSet) (r s : GroupRow)
      → IsReady X ecbor scbor t g d r
      → Tracks X ecbor scbor (t.group_standings g) set
      → Tables.get t' g ≡ some s
      → t'.group_entries g ≡ t.group_entries g
      → t'.group_standings g ≡ kept_rows X ecbor scbor d set (t.group_standings g)
      → t'.group_members g ≡ Members.name_from set (fold X d)
      → InStep X ecbor scbor
          (t.group_entries g)
          (kept_rows X ecbor scbor d set (t.group_standings g))
          (Members.name_from set (fold X d))
          g
          s
      → IsLocal X ecbor scbor t' g
  settled-IsLocal t t' g d set r s ready tracks found es rows ms step = record {
    in_step = λ x there.
        subst (λ y. InStep X ecbor scbor y (t'.group_standings g) (t'.group_members g) g x) (sym es)
          (subst (λ y. InStep X ecbor scbor (t.group_entries g) y (t'.group_members g) g x)
            (sym rows)
            (subst
              (λ y.
                InStep X ecbor scbor (t.group_entries g)
                  (kept_rows X ecbor scbor d set (t.group_standings g)) y g x)
              (sym ms)
              (subst
                (InStep X ecbor scbor (t.group_entries g)
                  (kept_rows X ecbor scbor d set (t.group_standings g))
                  (Members.name_from set (fold X d)) g)
                (some-injective s x (sym found ∙ there)) step)));
    unknown = λ gone. absurd (ground (arith, gone, found));
    ordered = subst Map.IsSorted (sym rows) (
        Map.retain-IsSorted (λ p row. Map.contains p (Members.name_from set (fold X d)))
          (t.group_standings g) tracks.ordered);
  }

  -- A rebuild, then the name.
  pub renamed-IsLocal :
      (t : Tables) (g : GroupId) (d : Chain) (set : StandingSet) (r : GroupRow) (at : ℤ)
      → IsReady X ecbor scbor t g d r
      → Tracks X ecbor scbor (t.group_standings g) set
      → IsLocal X ecbor scbor
          (update_group g
            (λ x. record x { name = name d; last_synced = at })
            (Tables.rebuild_caches X scbor g d set t))
          g
  unfolding Tables.rebuild_caches
  renamed-IsLocal t g d set r at ready tracks =
      let members = Members.name_from set (fold X d) in
      let digest = Members.standings_digest X set members in
      let t1 = record t {
        group_members = at_group g members t.group_members;
        group_standings =
            at_group g (kept_rows X ecbor scbor d set (t.group_standings g)) t.group_standings;
      } in
      let f : GroupRow → GroupRow = λ x. record x { standings_digest = digest } in
      let k : GroupRow → GroupRow = λ x. record x { name = name d; last_synced = at } in
      settled-IsLocal t (update_group g k (update_group g f t1)) g d set r (k (f r)) ready tracks
        (get-update_group g k (update_group g f t1) (f r) (get-update_group g f t1 r ready.found))
        refl
        (at_group_self g (kept_rows X ecbor scbor d set (t.group_standings g)) t.group_standings)
        (at_group_self g members t.group_members)
        (rebuild-InStep X ecbor scbor t g d set r (k (f r)) ready tracks refl refl refl refl refl)

  -- A rebuild alone, where the name is right.
  pub rebuilt-IsLocal :
      (t : Tables) (g : GroupId) (d : Chain) (set : StandingSet) (r : GroupRow)
      → IsReady X ecbor scbor t g d r
      → Tracks X ecbor scbor (t.group_standings g) set
      → r.name ≡ name d
      → IsLocal X ecbor scbor (Tables.rebuild_caches X scbor g d set t) g
  unfolding Tables.rebuild_caches
  rebuilt-IsLocal t g d set r ready tracks named =
      let members = Members.name_from set (fold X d) in
      let digest = Members.standings_digest X set members in
      let t1 = record t {
        group_members = at_group g members t.group_members;
        group_standings =
            at_group g (kept_rows X ecbor scbor d set (t.group_standings g)) t.group_standings;
      } in
      let f : GroupRow → GroupRow = λ x. record x { standings_digest = digest } in
      settled-IsLocal t (update_group g f t1) g d set r (f r) ready tracks
        (get-update_group g f t1 r ready.found) refl
        (at_group_self g (kept_rows X ecbor scbor d set (t.group_standings g)) t.group_standings)
        (at_group_self g members t.group_members)
        (rebuild-InStep X ecbor scbor t g d set r (f r) ready tracks refl refl refl named refl)

  -- The rows of `t` with other standings are ready when those of `t` are.
  pub said-IsReady :
      (t : Tables) (g : GroupId) (d : Chain) (r : GroupRow) (rows : GroupId → Map StandingRow)
      → IsReady X ecbor scbor t g d r
      → IsReady X ecbor scbor (record t { group_standings = rows }) g d r
  said-IsReady t g d r rows ready = record {
    found = ready.found;
    loads = ready.loads;
    numbered = ready.numbered;
    own_id = ready.own_id;
    own_admin = ready.own_admin;
    at_head = ready.at_head;
    at_hash = ready.at_hash;
  }

  -- The end of `put` on a group that is ready.
  pub finish_put-IsLocal :
      (t : Tables) (g : GroupId) (c d : Chain) (n : ℕ) (ss : List Standing) (now : ℤ) (r : GroupRow)
      → IsReady X ecbor scbor t g d r
      → Map.IsSorted (t.group_standings g)
      → IsLocal X ecbor scbor (finish_put X ecbor scbor me g c d n ss now t).0 g
        × OnlyAt g t (finish_put X ecbor scbor me g c d n ss now t).0
  unfolding finish_put
  finish_put-IsLocal t g c d n ss now r ready sorted =
      let start : Intake X ecbor scbor me = record {
        set = Tables.load_standings X scbor t g;
        rows = t.group_standings g;
        departed = [];
      } in
      let i = take_standings X ecbor scbor me g d start ss in
      let rows = at_group g i.rows t.group_standings in
      let t1 = record t { group_standings = rows } in
      let t2 = Tables.rebuild_caches X scbor g d i.set t1 in
      let tracks = take-Tracks g d start ss (load-Tracks X ecbor scbor t g sorted) in
      (
        renamed-IsLocal t1 g d i.set r now (said-IsReady t g d r rows ready) (
            subst (λ y. Tracks X ecbor scbor y i.set)
              (sym (at_group_self g i.rows t.group_standings)) tracks),
        OnlyAt-trans g t t1 _ (write_rows-OnlyAt g i.rows t) (
            OnlyAt-trans g t1 t2 _ (rebuild-OnlyAt X scbor g d i.set t1)
              (update_group-OnlyAt g (λ x. record x { name = name d; last_synced = now }) t2)),
      )
