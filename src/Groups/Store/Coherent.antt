-- ===== src/Groups/Store/Coherent.antt =====
-- When the tables agree with one another: the caches of a group say what its chain and the standings
-- say. store.rs, rebuild_caches.
use p2parchiver.Common.{
  ◌≡◌, refl, sym, ap, ◌∙◌, subst, inl, inr, Bool, true, false, Option, none, some, List, [], ◌∷◌,
  arith, if◌then◌else◌, Bool-cases,
}
use p2parchiver.Common.Bytes.{bytes_eq, bytes_eq_refl}
use p2parchiver.Common.Map
use p2parchiver.Common.Map.{Map}
use p2parchiver.Common.Result.{ok}
use p2parchiver.Platform.{Platform, PeerId, Cbor}
use p2parchiver.Groups.Id.{GroupId}
use p2parchiver.Groups.Chain.Types.{Entry, EntryBody, Op, hash}
use p2parchiver.Groups.Chain.{Chain, load, fold, head, len, name, entries}
use p2parchiver.Groups.Standing.{StandingBody, StandingSet}
use p2parchiver.Groups.Members
use p2parchiver.Groups.Members.{Members, Member}
use p2parchiver.Groups.Sync.Wire.{GroupRow}
use p2parchiver.Groups.Store.Tables
use p2parchiver.Groups.Store.Tables.{Tables, GroupRecord, StandingRow}
use p2parchiver.Groups.Store.Numbered.{enumerate}
use p2parchiver.Groups.Store.Loaded.{
  IsKeyed, Agree, name_from-Agree, digest-Agree, name_from-IsKeyed, contains-name_from, held_at,
  load_rows-held, loaded,
}
use p2parchiver.Groups.Store.Tables.{at_group, update_group, load_rows}
use p2parchiver.Groups.Chain.{fold_from, apply_op, Verified, insert_parsed, remove_parsed}

pub at_group_self :
    {A : Type 0} (g : GroupId) (a : A) (rows : GroupId → A) → at_group g a rows g ≡ a
at_group_self g a rows = ground (arith, bytes_eq_refl g)

pub at_group_other :
    {A : Type 0} (g h : GroupId) (a : A) (rows : GroupId → A)
    → bytes_eq g h ≡ false
    → at_group g a rows h ≡ rows h
at_group_other g h a rows other = ground arith

insert-IsKeyed :
    (p : PeerId) (x : Member) (m : Members) → x.peer ≡ p → IsKeyed m → IsKeyed (Map.insert p x m)
unfolding Map.insert
insert-IsKeyed p x [] same keyed = (same, tt)
insert-IsKeyed p x ((q, y) ∷ m) same keyed =
    ground (arith, insert-IsKeyed p x m same keyed.1, keyed.1)

remove-IsKeyed : (p : PeerId) (m : Members) → IsKeyed m → IsKeyed (Map.remove p m)
unfolding Map.remove
remove-IsKeyed p [] keyed = tt
remove-IsKeyed p ((q, y) ∷ m) keyed = ground (arith, remove-IsKeyed p m keyed.1, keyed.1)

module _ (X : Platform) where
  parsed-IsKeyed :
      (m : Members) (b : Bool) (o : Option PeerId) → IsKeyed m → IsKeyed (insert_parsed X o b m)
  unfolding Members.insert
  parsed-IsKeyed m b none keyed = keyed
  parsed-IsKeyed m b (some p) keyed =
      let x : Member = record { peer = p; username = none; is_admin = b } in
      elim (Bool-cases (Map.contains p m)) [
        | inl there ↦ subst (λ t. IsKeyed (if t then m else Map.insert p x m)) (sym there) keyed
        | inr new ↦
            subst (λ t. IsKeyed (if t then m else Map.insert p x m)) (sym new)
              (insert-IsKeyed p x m refl keyed)
      ]

  gone-IsKeyed : (m : Members) (o : Option PeerId) → IsKeyed m → IsKeyed (remove_parsed X o m)
  unfolding Members.remove
  gone-IsKeyed m none keyed = keyed
  gone-IsKeyed m (some p) keyed = remove-IsKeyed p m keyed

  op-IsKeyed : (m : Members) (op : Op) → IsKeyed m → IsKeyed (apply_op X m op)
  unfolding apply_op
  op-IsKeyed m (Op.create a n nm) keyed = parsed-IsKeyed m true (X.parse_peer_id a) keyed
  op-IsKeyed m (Op.add a) keyed = parsed-IsKeyed m false (X.parse_peer_id a) keyed
  op-IsKeyed m (Op.remove a) keyed = gone-IsKeyed m (X.parse_peer_id a) keyed

  from-IsKeyed : (m : Members) (vs : List Verified) → IsKeyed m → IsKeyed (fold_from X m vs)
  unfolding fold_from
  from-IsKeyed m [] keyed = keyed
  from-IsKeyed m (v ∷ vs) keyed =
      from-IsKeyed (apply_op X m v.body.op) vs (op-IsKeyed m v.body.op keyed)

  pub fold-IsKeyed : (c : Chain) → IsKeyed (fold X c)
  unfolding fold
  fold-IsKeyed c = from-IsKeyed [] c.entries tt

module _ (X : Platform) (ecbor : Cbor EntryBody) (scbor : Cbor StandingBody) where
  -- A set holds what the rows stand for.
  pub record Tracks (rows : Map StandingRow) (set : StandingSet) : Type 0 where
    pub ordered : Map.IsSorted rows
    pub holds : (p : PeerId) → Map.get p set ≡ held_at X scbor rows p

  -- The rows of one group agree: the entries load to a chain of this group, whose head, admin and
  -- name the row of `groups` has, and the members and the digest are those of the chain and the
  -- standings.
  pub record InStep (rows : Map Entry) (said : Map StandingRow) (cached : Members) (g : GroupId)
      (r : GroupRow) : Type 0 where
    pub held : Chain
    pub loads : load X ecbor (entries held) ≡ ok held
    pub numbered : rows ≡ enumerate 0 (entries held)
    pub own_id : held.id ≡ g
    pub own_admin : r.admin ≡ held.admin
    pub own_name : r.name ≡ name held
    pub at_head : r.head_seq ≡ len held
    pub at_hash : r.head_hash ≡ head held
    pub members_agree : cached ≡ Members.name_from (load_rows X scbor said []) (fold X held)
    pub digest_agrees :
        r.standings_digest ≡ Members.standings_digest X (load_rows X scbor said []) cached

  -- What holds of the rows of one group.
  pub record IsLocal (t : Tables) (g : GroupId) : Type 0 where
    pub in_step :
        (r : GroupRow)
        → Tables.get t g ≡ some r
        → InStep (t.group_entries g) (t.group_standings g) (t.group_members g) g r
    pub unknown : Tables.get t g ≡ none → t.group_entries g ≡ []
    pub ordered : Map.IsSorted (t.group_standings g)

  -- Of every group.
  abbrev pub IsCoherent : Tables → Type 0
  IsCoherent t = (g : GroupId) → IsLocal t g

  -- The rows of a group hold a chain, whatever the caches say.
  pub record IsReady (t : Tables) (g : GroupId) (c : Chain) (r : GroupRow) : Type 0 where
    pub found : Tables.get t g ≡ some r
    pub loads : load X ecbor (entries c) ≡ ok c
    pub numbered : t.group_entries g ≡ enumerate 0 (entries c)
    pub own_id : c.id ≡ g
    pub own_admin : r.admin ≡ c.admin
    pub at_head : r.head_seq ≡ len c
    pub at_hash : r.head_hash ≡ head c

  -- A set that is read back tracks its rows.
  pub load-Tracks :
      (t : Tables) (g : GroupId)
      → Map.IsSorted (t.group_standings g)
      → Tracks (t.group_standings g) (Tables.load_standings X scbor t g)
  unfolding Tables.load_standings
  load-Tracks t g sorted = record {
    ordered = sorted;
    holds = λ p. load_rows-held X scbor (t.group_standings g) p sorted;
  }

  abbrev pub kept_rows : Chain → StandingSet → Map StandingRow → Map StandingRow
  kept_rows c set rows =
      Map.retain (λ peer row. Map.contains peer (Members.name_from set (fold X c))) rows

  -- The standings that survive a rebuild say of the members what the set said.
  kept-Agree :
      (c : Chain) (set : StandingSet) (rows : Map StandingRow)
      → Tracks rows set
      → Agree set (load_rows X scbor (kept_rows c set rows) []) (fold X c)
  kept-Agree c set rows tracks p member =
      let members = Members.name_from set (fold X c) in
      let same : Map.get p (kept_rows c set rows) ≡ Map.get p rows =
        Map.get-retain (λ q. Map.contains q members) p rows
        ∙ ap (λ b. if b then Map.get p rows else none)
            (contains-name_from set (fold X c) p ∙ member) in
      tracks.holds p
      ∙ ap (loaded X scbor) (sym same)
      ∙ sym (
          load_rows-held X scbor (kept_rows c set rows) p
            (Map.retain-IsSorted (λ q row. Map.contains q members) rows tracks.ordered))

  -- After a rebuild from a set that tracks the standings, the rows of the group agree.
  pub rebuild-InStep :
      (t : Tables) (g : GroupId) (c : Chain) (set : StandingSet) (r s : GroupRow)
      → IsReady t g c r
      → Tracks (t.group_standings g) set
      → s.admin ≡ r.admin
      → s.head_seq ≡ r.head_seq
      → s.head_hash ≡ r.head_hash
      → s.name ≡ name c
      → s.standings_digest ≡ Members.standings_digest X set (Members.name_from set (fold X c))
      → InStep
          (t.group_entries g)
          (kept_rows c set (t.group_standings g))
          (Members.name_from set (fold X c))
          g
          s
  rebuild-InStep t g c set r s ready tracks admin seq hash named digest =
      let rows = kept_rows c set (t.group_standings g) in
      let agree = kept-Agree c set (t.group_standings g) tracks in
      let keyed = fold-IsKeyed X c in
      record {
        held = c;
        loads = ready.loads;
        numbered = ready.numbered;
        own_id = ready.own_id;
        own_admin = admin ∙ ready.own_admin;
        own_name = named;
        at_head = seq ∙ ready.at_head;
        at_hash = hash ∙ ready.at_hash;
        members_agree = name_from-Agree set (load_rows X scbor rows []) (fold X c) keyed agree;
        digest_agrees =
            digest
            ∙ digest-Agree X set (load_rows X scbor rows []) (Members.name_from set (fold X c))
                (name_from-IsKeyed set (fold X c) keyed)
                (λ p h. agree p (sym (contains-name_from set (fold X c) p) ∙ h));
      }
