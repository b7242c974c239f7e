-- ===== src/Groups/Store/Frame.antt =====
-- A statement about one group leaves the rows of the others alone: store.rs, `WHERE group_id = ?1`.
use p2parchiver.Common.{
  ℕ, ◌+◌, ◌≡◌, refl, sym, ap, ◌∙◌, subst, inl, inr, false, none, some, List, [], arith, Bool-cases,
  Option-cases,
}
use p2parchiver.Common.Bytes.{bytes_eq, bytes_eq_sound, bytes_eq_refl}
use p2parchiver.Common.Map
use p2parchiver.Common.Map.{Map}
use p2parchiver.Platform.{Platform, Cbor}
use p2parchiver.Common.Keyed
use p2parchiver.Common.Keyed.{Keyed}
use p2parchiver.Groups.Id.{GroupId}
use p2parchiver.Groups.Chain.Types.{Entry, EntryBody}
use p2parchiver.Groups.Chain.{Chain, fold}
use p2parchiver.Groups.Standing.{StandingBody, StandingSet}
use p2parchiver.Groups.Members
use p2parchiver.Groups.Members.{Members, Member}
use p2parchiver.Groups.Sync.Wire.{GroupRow}
use p2parchiver.Groups.Store.Tables
use p2parchiver.Groups.Store.Tables.{Tables, GroupRecord, StandingRow}
use p2parchiver.Groups.Store.Coherent.{InStep, IsLocal, IsCoherent, at_group_other}
use mathlib.Core.Path.{ap₂}
use p2parchiver.Groups.Store.Tables.{row_of, at_group, update_group, load_rows}

-- The second tables differ from the first in the rows of one group only.
abbrev pub OnlyAt : GroupId → Tables → Tables → Type 0
OnlyAt g t t' =
    (h : GroupId)
    → bytes_eq g h ≡ false
    → (Tables.get t' h ≡ Tables.get t h)
      × (t'.group_entries h ≡ t.group_entries h)
      × (t'.group_standings h ≡ t.group_standings h)
      × (t'.group_members h ≡ t.group_members h)

pub OnlyAt-refl : (g : GroupId) (t : Tables) → OnlyAt g t t
OnlyAt-refl g t h other = (refl, refl, refl, refl)

pub OnlyAt-trans : (g : GroupId) (t u v : Tables) → OnlyAt g t u → OnlyAt g u v → OnlyAt g t v
OnlyAt-trans g t u v a b h other =
    let (a1, a2, a3, a4) = a h other in
    let (b1, b2, b3, b4) = b h other in (b1 ∙ a1, b2 ∙ a2, b3 ∙ a3, b4 ∙ a4)

pub update_group-OnlyAt :
    (g : GroupId) (f : GroupRow → GroupRow) (t : Tables) → OnlyAt g t (update_group g f t)
update_group-OnlyAt g f t h other = (
  ground (arith, Keyed.find-modify g h (λ r. record r { row = f r.row }) t.groups),
  refl,
  refl,
  refl,
)

pub get-update_group :
    (g : GroupId) (f : GroupRow → GroupRow) (t : Tables) (r : GroupRow)
    → Tables.get t g ≡ some r
    → Tables.get (update_group g f t) g ≡ some (f r)
get-update_group g f t r found = elim (Option-cases (Keyed.find g t.groups)) [
  | inl missing ↦ absurd (ground arith)
  | inr (x, there) ↦
      ap row_of (
        Keyed.find-modify g g (λ y. record y { row = f y.row }) t.groups
        ∙ ap₂ (λ b o. Keyed.map_if b (λ y. record y { row = f y.row }) o) (bytes_eq_refl g) there)
      ∙ ap (λ y. some (f y)) (same x there)
]
  where
    same : (x : GroupRecord) → Keyed.find g t.groups ≡ some x → x.row ≡ r
    same x there = ground arith

pub update_group-none :
    (g : GroupId) (f : GroupRow → GroupRow) (t : Tables)
    → Tables.get t g ≡ none
    → Tables.get (update_group g f t) g ≡ none
update_group-none g f t gone =
    ground (arith, Keyed.find-modify g g (λ r. record r { row = f r.row }) t.groups, gone)

pub note_news-get :
    (g h : GroupId) (t : Tables) → Tables.get (Tables.note_news g t) h ≡ Tables.get t h
unfolding Tables.note_news
note_news-get g h t =
    ground (arith, Keyed.find-modify g h (λ r. record r { news = r.news + 1 }) t.groups)

pub note_news-OnlyAt : (g : GroupId) (t : Tables) → OnlyAt g t (Tables.note_news g t)
unfolding Tables.note_news
note_news-OnlyAt g t h other = (note_news-get g h t, refl, refl, refl)

pub write_entries-OnlyAt :
    (g : GroupId) (n : ℕ) (es : List Entry) (t : Tables)
    → OnlyAt g t (Tables.write_entries g n es t)
unfolding Tables.write_entries
write_entries-OnlyAt g n es t h other = (
  refl,
  at_group_other g h (Tables.insert_entries n es (t.group_entries g)) t.group_entries other,
  refl,
  refl,
)

pub write_rows-OnlyAt :
    (g : GroupId) (rows : Map StandingRow) (t : Tables)
    → OnlyAt g t (record t { group_standings = at_group g rows t.group_standings })
write_rows-OnlyAt g rows t h other =
    (refl, refl, at_group_other g h rows t.group_standings other, refl)

pub put_row-OnlyAt :
    (g : GroupId) (r : GroupRecord) (t : Tables)
    → OnlyAt g t (record t { groups = Keyed.put g r t.groups })
put_row-OnlyAt g r t h other = (ground (arith, Keyed.find-put g h r t.groups), refl, refl, refl)

pub forget-OnlyAt : (g : GroupId) (t : Tables) → OnlyAt g t (Tables.forget g t)
unfolding Tables.forget
forget-OnlyAt g t h other = (
  ground (arith, Keyed.find-erase g h t.groups),
  at_group_other g h [] t.group_entries other,
  at_group_other g h [] t.group_standings other,
  at_group_other g h [] t.group_members other,
)

module _ (X : Platform) (scbor : Cbor StandingBody) where
  pub rebuild-OnlyAt :
      (g : GroupId) (c : Chain) (set : StandingSet) (t : Tables)
      → OnlyAt g t (Tables.rebuild_caches X scbor g c set t)
  unfolding Tables.rebuild_caches
  rebuild-OnlyAt g c set t h other =
      let members = Members.name_from set (fold X c) in
      (
        ground (
          arith,
          Keyed.find-modify g h
              (λ r. record r {
                row = record r.row { standings_digest = Members.standings_digest X set members };
              })
              t.groups,
        ),
        refl,
        at_group_other g h
            (Map.retain (λ peer row. Map.contains peer members) (t.group_standings g))
            t.group_standings other,
        at_group_other g h members t.group_members other,
      )

module _ (X : Platform) (ecbor : Cbor EntryBody) (scbor : Cbor StandingBody) where
  elsewhere :
      (g h : GroupId) (t t' : Tables)
      → OnlyAt g t t'
      → bytes_eq g h ≡ false
      → IsLocal X ecbor scbor t h
      → IsLocal X ecbor scbor t' h
  elsewhere g h t t' only other local =
      let (row, es, rows, ms) = only h other in
      record {
        in_step = λ r found.
            subst (λ x. InStep X ecbor scbor x (t'.group_standings h) (t'.group_members h) h r)
              (sym es)
              (subst (λ x. InStep X ecbor scbor (t.group_entries h) x (t'.group_members h) h r)
                (sym rows)
                (subst (λ x. InStep X ecbor scbor (t.group_entries h) (t.group_standings h) x h r)
                  (sym ms) (local.in_step r (sym row ∙ found))));
        unknown = λ gone. es ∙ local.unknown (sym row ∙ gone);
        ordered = subst Map.IsSorted (sym rows) local.ordered;
      }

  -- A change of one group's rows keeps all tables coherent when it leaves that group's rows so.
  pub OnlyAt-IsCoherent :
      (g : GroupId) (t t' : Tables)
      → OnlyAt g t t'
      → IsLocal X ecbor scbor t' g
      → IsCoherent X ecbor scbor t
      → IsCoherent X ecbor scbor t'
  OnlyAt-IsCoherent g t t' only local coherent h = elim (Bool-cases (bytes_eq g h)) [
    | inl same ↦ subst (IsLocal X ecbor scbor t') (bytes_eq_sound g h same) local
    | inr other ↦ elsewhere g h t t' only other (coherent h)
  ]

-- What `Groups::open` finds in a new file.
abbrev pub no_rows : Tables
no_rows = record {
  groups = [];
  group_entries = λ g. [];
  group_standings = λ g. [];
  group_members = λ g. [];
}

-- Tables without a row are coherent.
pub no_rows-IsCoherent :
    (X : Platform) (ecbor : Cbor EntryBody) (scbor : Cbor StandingBody)
    → IsCoherent X ecbor scbor no_rows
no_rows-IsCoherent X ecbor scbor g = record {
  in_step = λ r found. absurd (ground (arith, found));
  unknown = λ gone. refl;
  ordered = tt;
}
