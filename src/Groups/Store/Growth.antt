-- ===== src/Groups/Store/Growth.antt =====
-- A stored chain that grows: what the entries and the head of a group hold after `write_entries` and
-- `set_head`. store.rs.
use p2parchiver.Common.{
  ℕ, ◌≡◌, refl, sym, ap, ◌∙◌, subst, inl, inr, true, false, List, [], ◌∷◌, ◌++◌, append-nil, arith,
  ltb, if◌then◌else◌, length,
}
use p2parchiver.Common.Map
use p2parchiver.Common.Map.{Map}
use p2parchiver.Common.Result.{ok, ok-injective, ok≢err, ◌>>=◌}
use p2parchiver.Platform.{Platform, PeerId, Cbor}
use p2parchiver.Groups.Id.{GroupId}
use p2parchiver.Groups.Chain.Types.{Entry, EntryBody}
use p2parchiver.Groups.Chain.{Chain, load, extend, head, len, entries}
use p2parchiver.Groups.Standing.{StandingBody}
use p2parchiver.Groups.Sync.Wire.{GroupRow}
use p2parchiver.Groups.Store.Tables
use p2parchiver.Groups.Store.Tables.{head_is, Tables, GroupRecord, StandingRow}
use p2parchiver.Groups.Store.Reads.{chain, chain_error}
use p2parchiver.Groups.Store.Coherent.{IsReady, at_group_self}
use p2parchiver.Groups.Store.Numbered.{enumerate, values-enumerate, insert_entries-enumerate}
use p2parchiver.Groups.Store.Tables.{row_of, at_group, update_group, load_rows}
use p2parchiver.Groups.Store.Frame.{
  OnlyAt, OnlyAt-refl, OnlyAt-trans, update_group-OnlyAt, get-update_group, write_entries-OnlyAt,
}
use p2parchiver.Common.{length-map}
use p2parchiver.Groups.Chain.{extended}
use p2parchiver.Groups.Chain.Extend.{load-IsValid, extend_atomic}
use p2parchiver.Groups.Chain.Replay.{load-append}
use p2parchiver.Groups.Store.Reads.{chain_of, chain, chain_error}
use p2parchiver.Groups.Store.Writes.{extend_by, write_head, grown, moved_or_raced}

module _ (X : Platform) (ecbor : Cbor EntryBody) (scbor : Cbor StandingBody) (me : PeerId) where
  -- The second chain is the first with more entries, and loads from them.
  pub record Grows (c : Chain) (fresh : List Entry) (d : Chain) : Type 0 where
    pub loads : load X ecbor (entries d) ≡ ok d
    pub all : entries d ≡ entries c ++ fresh
    pub same_id : d.id ≡ c.id
    pub same_admin : d.admin ≡ c.admin

  load_more :
      (es : List Entry) (c d : Chain) (fresh : List Entry)
      → load X ecbor es ≡ ok c
      → extended X ecbor (extend X ecbor c fresh) ≡ ok d
      → load X ecbor (es ++ fresh) ≡ ok d
  unfolding load
  load_more [] c d fresh h k = absurd (ground (arith, h))
  load_more (e ∷ es) c d fresh h k =
      load-append X ecbor e es fresh
      ∙ ap (λ r. r >>= λ b. extended X ecbor (extend X ecbor b fresh)) h
      ∙ k

  pub extended-Grows :
      (c d : Chain) (fresh : List Entry)
      → load X ecbor (entries c) ≡ ok c
      → extended X ecbor (extend X ecbor c fresh) ≡ ok d
      → Grows c fresh d
  extended-Grows c d fresh loads h =
      elim (extend_atomic X ecbor c fresh (load-IsValid X ecbor (entries c) c loads).0) [
        | inl (e, failed) ↦ absurd (ok≢err (sym h ∙ ap (extended X ecbor) failed))
        | inr (d', grown, all, id, admin, valid) ↦
            let same : d' ≡ d = ok-injective (sym (ap (extended X ecbor) grown) ∙ h) in
            subst (Grows c fresh) same (record {
              loads =
                  ap (load X ecbor) all
                  ∙ load_more (entries c) c d' fresh loads (ap (extended X ecbor) grown);
              all = all;
              same_id = id;
              same_admin = admin;
            })
      ]

  -- A chain that grew by nothing is the same chain.
  pub Grows-none : (c : Chain) → load X ecbor (entries c) ≡ ok c → Grows c [] c
  Grows-none c loads = record {
    loads = loads;
    all = sym (append-nil (entries c));
    same_id = refl;
    same_admin = refl;
  }

  pub extend_by-Grows :
      (c d : Chain) (fresh : List Entry) (n : ℕ)
      → load X ecbor (entries c) ≡ ok c
      → extend_by X ecbor scbor me c fresh ≡ ok (d, n)
      → Grows c fresh d × (n ≡ length fresh)
  extend_by-Grows c d [] n loads h =
      let same : (c, 0) ≡ (d, n) = ok-injective h in
      (subst (Grows c []) (ap (λ x. x.0) same) (Grows-none c loads), sym (ap (λ x. x.1) same))
  extend_by-Grows c d (e ∷ es) n loads h =
      elim (extend_atomic X ecbor c (e ∷ es) (load-IsValid X ecbor (entries c) c loads).0) [
        | inl (x, failed) ↦ absurd (ok≢err (sym h ∙ ap (grown X ecbor scbor me) failed))
        | inr (d', grew, all, id, admin, valid) ↦
            let same : (d', length (e ∷ es)) ≡ (d, n) =
              ok-injective (sym (ap (grown X ecbor scbor me) grew) ∙ h) in
            (
              subst (Grows c (e ∷ es)) (ap (λ x. x.0) same)
                  (extended-Grows c d' (e ∷ es) loads (ap (extended X ecbor) grew)),
              sym (ap (λ x. x.1) same),
            )
      ]

  from_entries :
      (g : GroupId) (es : List Entry) (c : Chain)
      → load X ecbor es ≡ ok c
      → chain_of X ecbor g es ≡ ok c
  unfolding load
  from_entries g [] c h = absurd (ground (arith, h))
  from_entries g (e ∷ es) c h = ap chain_error h

  -- A group whose rows agree reads back as its chain.
  pub InStep-chain :
      (t : Tables) (g : GroupId) (c : Chain)
      → load X ecbor (entries c) ≡ ok c
      → t.group_entries g ≡ enumerate 0 (entries c)
      → chain X ecbor t g ≡ ok c
  unfolding chain
  InStep-chain t g c loads numbered =
      ap (λ m. chain_of X ecbor g (Map.values m)) numbered
      ∙ ap (chain_of X ecbor g) (values-enumerate 0 (entries c))
      ∙ from_entries g (entries c) c loads

  abbrev moved : Chain → GroupRow → GroupRow
  moved d r = record r { head_seq = len d; head_hash = head d }

  abbrev grown_tables : Tables → GroupId → Chain → Chain → List Entry → Tables
  grown_tables t g c d fresh = update_group g (moved d) (Tables.write_entries g (len c) fresh t)

  set_head-found :
      (t : Tables) (g : GroupId) (c d : Chain) (r : GroupRow) (fresh : List Entry)
      → IsReady X ecbor scbor t g c r
      → Tables.set_head g (len c) (len d) (head d) (Tables.write_entries g (len c) fresh t)
        ≡ (grown_tables t g c d fresh, true)
  unfolding Tables.set_head Tables.write_entries
  set_head-found t g c d r fresh ready =
      let t1 = Tables.write_entries g (len c) fresh t in
      ap (λ b. if b then (update_group g (moved d) t1, true) else (t1, false)) {y = true}
        (ap (head_is (len c)) ready.found ∙ ground (arith, ready.at_head))

  grown-IsReady :
      (t : Tables) (g : GroupId) (c d : Chain) (r : GroupRow) (fresh : List Entry)
      → IsReady X ecbor scbor t g c r
      → Grows c fresh d
      → IsReady X ecbor scbor (grown_tables t g c d fresh) g d (moved d r)
  unfolding Tables.write_entries
  grown-IsReady t g c d r fresh ready grows = record {
    found = get-update_group g (moved d) (Tables.write_entries g (len c) fresh t) r ready.found;
    loads = grows.loads;
    numbered =
        at_group_self g (Tables.insert_entries (len c) fresh (t.group_entries g)) t.group_entries
        ∙ ap (Tables.insert_entries (len c) fresh) ready.numbered
        ∙ insert_entries-enumerate (len c) (entries c) fresh (sym (length-map _ c.entries))
        ∙ ap (enumerate 0) (sym grows.all);
    own_id = grows.same_id ∙ ready.own_id;
    own_admin = ready.own_admin ∙ sym grows.same_admin;
    at_head = refl;
    at_hash = refl;
  }

  -- What a head moves to: the tables after it, ready with the longer chain.
  abbrev pub Moved : Tables → GroupId → Chain → Tables → Type 0
  Moved t g d t' =
      (r : GroupRow) × IsReady X ecbor scbor t' g d r
      × OnlyAt g t t'
      × (t'.group_standings g ≡ t.group_standings g)

  -- Writing what a ready group's chain grew by never finds another head, and leaves it ready.
  pub write_head-Moved :
      (t : Tables) (g : GroupId) (c d : Chain) (r : GroupRow) (fresh : List Entry) (n : ℕ)
      → IsReady X ecbor scbor t g c r
      → Grows c fresh d
      → n ≡ length fresh
      → (t' : Tables) × (write_head X ecbor scbor me g (len c) d fresh n t ≡ ok t') × Moved t g d t'
  unfolding Tables.write_entries
  write_head-Moved t g c d r [] n ready grows counted =
      let same : c ≡ d = ok-injective (
        sym ready.loads
        ∙ ap (load X ecbor) (sym (append-nil (entries c)) ∙ sym grows.all)
        ∙ grows.loads) in
      (
        t,
        subst (λ k. write_head X ecbor scbor me g (len c) d [] k t ≡ ok t) (sym counted) refl,
        (r, subst (λ x. IsReady X ecbor scbor t g x r) same ready, OnlyAt-refl g t, refl),
      )
  write_head-Moved t g c d r (e ∷ es) n ready grows counted =
      let fresh = e ∷ es in
      let t1 = Tables.write_entries g (len c) fresh t in
      (
        grown_tables t g c d fresh,
        ap
              (λ b.
                if b
                then moved_or_raced X ecbor scbor me g
                    (Tables.set_head g (len c) (len d) (head d) t1)
                else ok t)
              {x = ltb 0 n} {y = true} (ground (arith, counted))
            ∙ ap (moved_or_raced X ecbor scbor me g) (set_head-found t g c d r fresh ready),
        (
          moved d r,
          grown-IsReady t g c d r fresh ready grows,
          OnlyAt-trans g t t1 (grown_tables t g c d fresh) (write_entries-OnlyAt g (len c) fresh t)
              (update_group-OnlyAt g (moved d) t1),
          refl,
        ),
      )
