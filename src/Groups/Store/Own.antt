-- ===== src/Groups/Store/Own.antt =====
-- A node's own word in the store: store.rs, author_standing and refresh_digest.
use p2parchiver.Common.{
  ◌≡◌, refl, sym, ap, ◌∙◌, subst, inl, inr, none, some, [], arith, Option-cases,
}
use p2parchiver.Common.Bytes.{Bytes}
use p2parchiver.Common.Map
use p2parchiver.Common.Map.{Map}
use p2parchiver.Common.Result.{Result, ok, err}
use p2parchiver.Common.Int.{ℤ}
use p2parchiver.Platform.{Platform, PeerId, Cbor}
use p2parchiver.Groups.Id.{GroupId}
use p2parchiver.Groups.Chain.Types.{EntryBody}
use p2parchiver.Groups.Chain.{Chain}
use p2parchiver.Groups.Standing.{Standing, StandingBody, Position}
use p2parchiver.Groups.Sync.Wire.{GroupRow, StoreError}
use p2parchiver.Groups.Store.Tables
use p2parchiver.Groups.Store.Tables.{held_of, head_is, Tables, GroupRecord, StandingRow}
use p2parchiver.Groups.Store.Reads.{chain}
use p2parchiver.Groups.Store.Coherent.{IsLocal, IsCoherent, IsReady, load-Tracks, at_group_self}
use p2parchiver.Groups.Store.Tables.{row_of, at_group, update_group, load_rows}
use p2parchiver.Groups.Store.Frame.{
  OnlyAt, OnlyAt-trans, update_group-OnlyAt, update_group-none, get-update_group, note_news-get,
  note_news-OnlyAt, write_rows-OnlyAt, rebuild-OnlyAt, OnlyAt-IsCoherent,
}
use p2parchiver.Groups.Store.Reads.{chain_of, chain}
use p2parchiver.Groups.Store.Growth.{InStep-chain}
use p2parchiver.Groups.Store.PutKeeps.{rebuilt-IsLocal}
use p2parchiver.Groups.Store.Writes.{
  author_standing, write_own, refresh_digest, refreshed, answer_with, own_written, state_for,
}
use p2parchiver.Groups.Store.Ops.{known-IsReady}

module _ (X : Platform) (ecbor : Cbor EntryBody) (scbor : Cbor StandingBody) (me : PeerId) where
  abbrev own_row : Standing → StandingBody → StandingRow
  own_row s body = record { seq = body.seq; position = body.position; standing = s }

  -- What `write_own` leaves of the rows of its group.
  pub write_own_lem :
      (t : Tables) (g : GroupId) (position : Position) (s : Standing) (body : StandingBody)
      → OnlyAt g t (write_own X ecbor scbor me t g position s body)
        × ((write_own X ecbor scbor me t g position s body).group_standings g
            ≡ Map.insert me (own_row s body) (t.group_standings g))
        × ((write_own X ecbor scbor me t g position s body).group_entries ≡ t.group_entries)
        × ((r : GroupRow)
            → Tables.get t g ≡ some r
            → Tables.get (write_own X ecbor scbor me t g position s body) g
              ≡ some (record r { state = state_for position }))
        × (Tables.get t g ≡ none
            → Tables.get (write_own X ecbor scbor me t g position s body) g ≡ none)
  unfolding write_own Tables.set_state Tables.write_standing Tables.note_news
  write_own_lem t g position s body =
      let rows = Map.insert me (own_row s body) (t.group_standings g) in
      let t1 = Tables.write_standing g me (own_row s body) t in
      let f : GroupRow → GroupRow = λ r. record r { state = state_for position } in
      let t2 = update_group g f t1 in
      (
        OnlyAt-trans g t t1 (Tables.note_news g t2) (write_rows-OnlyAt g rows t) (
            OnlyAt-trans g t1 t2 (Tables.note_news g t2) (update_group-OnlyAt g f t1)
              (note_news-OnlyAt g t2)),
        at_group_self g rows t.group_standings,
        refl,
        λ r found. note_news-get g g t2 ∙ get-update_group g f t1 r found,
        λ gone. note_news-get g g t2 ∙ update_group-none g f t1 gone,
      )

  -- A standing that is written for a group that the store does not know changes no group.
  unknown-IsLocal :
      (t : Tables) (g : GroupId) (position : Position) (s : Standing) (body : StandingBody)
      → IsLocal X ecbor scbor t g
      → Tables.get t g ≡ none
      → IsLocal X ecbor scbor (write_own X ecbor scbor me t g position s body) g
  unknown-IsLocal t g position s body local gone =
      let (only, rows, es, found, lost) = write_own_lem t g position s body in
      record {
        in_step = λ r there. absurd (ground (arith, there, lost gone));
        unknown = λ still. ap (λ x. x g) es ∙ local.unknown gone;
        ordered =
            subst Map.IsSorted (sym rows)
              (Map.insert-IsSorted me (own_row s body) (t.group_standings g) local.ordered);
      }

  own-IsReady :
      (t : Tables) (g : GroupId) (position : Position) (s : Standing) (body : StandingBody)
      (c : Chain) (r : GroupRow)
      → IsReady X ecbor scbor t g c r
      → IsReady X ecbor scbor
          (write_own X ecbor scbor me t g position s body)
          g
          c
          (record r { state = state_for position })
  own-IsReady t g position s body c r ready =
      let (only, rows, es, found, lost) = write_own_lem t g position s body in
      record {
        found = found r ready.found;
        loads = ready.loads;
        numbered = ap (λ x. x g) es ∙ ready.numbered;
        own_id = ready.own_id;
        own_admin = ready.own_admin;
        at_head = ready.at_head;
        at_hash = ready.at_hash;
      }

  no_chain :
      (t : Tables) (g : GroupId)
      → t.group_entries g ≡ []
      → chain X ecbor t g ≡ err (StoreError.unknown_group g)
  unfolding chain
  no_chain t g empty = ap (λ m. chain_of X ecbor g (Map.values m)) empty

  written-IsCoherent :
      (t : Tables) (g : GroupId) (position : Position) (s : Standing) (body : StandingBody)
      → IsCoherent X ecbor scbor t
      → IsCoherent X ecbor scbor
          (refresh_digest X ecbor scbor me (write_own X ecbor scbor me t g position s body) g).0
  unfolding refresh_digest
  written-IsCoherent t g position s body coherent =
      let t1 = write_own X ecbor scbor me t g position s body in
      let (only, rows, es, found, lost) = write_own_lem t g position s body in
      let sorted =
        subst Map.IsSorted (sym rows)
          (Map.insert-IsSorted me (own_row s body) (t.group_standings g) (coherent g).ordered) in
      elim (Option-cases (Tables.get t g)) [
        | inl gone ↦
            subst (λ x. IsCoherent X ecbor scbor (refreshed X ecbor scbor me g t1 x).0)
              (sym (no_chain t1 g (ap (λ x. x g) es ∙ (coherent g).unknown gone)))
              (OnlyAt-IsCoherent X ecbor scbor g t t1 only
                (unknown-IsLocal t g position s body (coherent g) gone) coherent)
        | inr (r, there) ↦
            let (c, ready, named, held) = known-IsReady X ecbor scbor me t g r coherent there in
            let ready1 = own-IsReady t g position s body c r ready in
            let set = Tables.load_standings X scbor t1 g in
            subst (λ x. IsCoherent X ecbor scbor (refreshed X ecbor scbor me g t1 x).0)
              (sym (InStep-chain X ecbor scbor me t1 g c ready1.loads ready1.numbered))
              (OnlyAt-IsCoherent X ecbor scbor g t (Tables.rebuild_caches X scbor g c set t1)
                (OnlyAt-trans g t t1 (Tables.rebuild_caches X scbor g c set t1) only
                  (rebuild-OnlyAt X scbor g c set t1))
                (rebuilt-IsLocal X ecbor scbor me t1 g c set
                  (record r { state = state_for position }) ready1
                  (load-Tracks X ecbor scbor t1 g sorted) named)
                coherent)
      ]

  pub answer_with-tables :
      (s : Standing) (x : Tables × Result StoreError (Unit {0}))
      → (answer_with X ecbor scbor me s x).0 ≡ x.0
  answer_with-tables s (t, ok done) = refl
  answer_with-tables s (t, err e) = refl

  own-IsCoherent :
      (t : Tables) (g : GroupId) (position : Position)
      (r : Result StoreError (Standing × StandingBody))
      → IsCoherent X ecbor scbor t
      → IsCoherent X ecbor scbor (own_written X ecbor scbor me t g position r).0
  own-IsCoherent t g position (err e) coherent = coherent
  own-IsCoherent t g position (ok (s, body)) coherent =
      subst (IsCoherent X ecbor scbor)
        (sym (
          answer_with-tables s
            (refresh_digest X ecbor scbor me (write_own X ecbor scbor me t g position s body) g)))
        (written-IsCoherent t g position s body coherent)

  -- `author_standing` keeps the tables coherent, for a group the store does not know too.
  pub author_standing-IsCoherent :
      (t : Tables) (key : X.Keypair) (g : GroupId) (position : Position) (username : Bytes) (at : ℤ)
      → IsCoherent X ecbor scbor t
      → IsCoherent X ecbor scbor (author_standing X ecbor scbor me t key g position username at).0
  unfolding author_standing
  author_standing-IsCoherent t key g position username at coherent =
      own-IsCoherent t g position _ coherent
