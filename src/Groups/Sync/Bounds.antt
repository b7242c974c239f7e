-- ===== src/Groups/Sync/Bounds.antt =====
-- What the changes of the fetches do to their number and to the answers that are awaited: sync.rs.
use p2parchiver.Common.{
  ℕ, ◌+◌, ◌≤◌, ◌<◌, ◌≡◌, refl, inl, inr, Bool, true, false, not, ◌&&◌, ◌||◌, Option, none, some,
  List, [], ◌∷◌, ◌++◌, arith, ltb, leb, Bool-cases, Option-cases, length, take, any_of, All,
  length-append, All-append,
}
use p2parchiver.Common.Bytes.{bytes_eq, bytes_eq_sound, bytes_eq_refl}
use p2parchiver.Common.Result.{Result, ok, err}
use p2parchiver.Platform.{Platform, PeerId}
use p2parchiver.Common.Keyed
use p2parchiver.Common.Keyed.{Keyed}
use p2parchiver.Groups.Id.{GroupId}
use p2parchiver.Net.Admission.{Instant}
use p2parchiver.Groups.Sync.Wire.{
  max_heads_per_answer, GroupHead, GroupRow, StoreError, StoreOps, GroupAction,
}
use p2parchiver.Groups.Sync.Fetches.{
  both, Episodes, InFlight, fetch, defer, start, max_inflight, max_deferred, fetch_timeout,
}
use p2parchiver.Groups.Sync.Heads.{
  awaits, on_head, fetch_heads, fetch_groups, silently_omitted, on_heads, head_in,
}

-- At most 8 fetches run, at most 256 groups wait, and none waits twice.
abbrev pub waits : GroupId → List (PeerId × GroupId) → Bool
waits group deferred = any_of (λ d. bytes_eq d.1 group) deferred

abbrev pub queued_once : List (PeerId × GroupId) → Bool
queued_once [] = true
queued_once (d ∷ ds) = not (waits d.1 ds) && queued_once ds

abbrev pub IsBounded : Episodes → Type 0
IsBounded e =
    (length e.inflight ≤ max_inflight)
    × (length e.deferred ≤ max_deferred)
    × (queued_once e.deferred ≡ true)

-- The answer to a request is awaited.
abbrev pub is_awaited : Keyed InFlight → GroupAction → Bool
is_awaited inflight (GroupAction.fetch peer group from) =
    awaits peer from (Keyed.find group inflight)

abbrev pub IsAwaited : Episodes → List GroupAction → Type 0
IsAwaited e acts = All (λ a. is_awaited e.inflight a ≡ true) acts

-- A change that keeps the bounds and every running fetch, and awaits what it asks.
abbrev pub Progress : Episodes → Episodes × List GroupAction → Type 0
Progress e (e', acts) =
    (IsBounded e → IsBounded e')
    × ((g : GroupId) (f : InFlight)
        → Keyed.find g e.inflight ≡ some f
        → Keyed.find g e'.inflight ≡ some f)
    × IsAwaited e' acts

IsAwaited-later :
    (e e' : Episodes) (acts : List GroupAction)
    → ((g : GroupId) (f : InFlight)
        → Keyed.find g e.inflight ≡ some f
        → Keyed.find g e'.inflight ≡ some f)
    → IsAwaited e acts
    → IsAwaited e' acts
IsAwaited-later e e' [] kept h = tt
IsAwaited-later e e' (GroupAction.fetch p g n ∷ acts) kept h = (
  elim (Option-cases (Keyed.find g e.inflight)) [
    | inl missing ↦ absurd (ground (arith, h.0))
    | inr (f, found) ↦ ground (arith, h.0, kept g f found)
  ],
  IsAwaited-later e e' acts kept h.1,
)

pub Progress-none : (e : Episodes) → Progress e (e, [])
Progress-none e = (λ b. b, λ g f h. h, tt)

pub Progress-both :
    (e : Episodes) (r : Episodes × List GroupAction) (k : Episodes → Episodes × List GroupAction)
    → Progress e r
    → Progress r.0 (k r.0)
    → Progress e (both r k)
Progress-both e r k (bounded, kept, awaited) (bounded', kept', awaited') = (
  λ b. bounded' (bounded b),
  λ g f h. kept' g f (kept g f h),
  All-append (λ a. is_awaited (k r.0).0.inflight a ≡ true) r.1 (k r.0).1
      (IsAwaited-later r.0 (k r.0).0 r.1 kept' awaited) awaited',
)

waits-append :
    (g : GroupId) (ds : List (PeerId × GroupId)) (d : PeerId × GroupId)
    → waits g (ds ++ d ∷ []) ≡ (waits g ds || bytes_eq d.1 g)
waits-append g [] d = ground arith
waits-append g (x ∷ ds) d = ground (arith, waits-append g ds d)

queued_once-append :
    (ds : List (PeerId × GroupId)) (d : PeerId × GroupId)
    → queued_once ds ≡ true
    → waits d.1 ds ≡ false
    → queued_once (ds ++ d ∷ []) ≡ true
queued_once-append [] d h k = refl
queued_once-append (x ∷ ds) d h k = ground (
  arith,
  queued_once-append ds d,
  waits-append x.1 ds d,
  bytes_eq_sound d.1 x.1,
  bytes_eq_refl x.1,
)

defer-Progress :
    (e : Episodes) (peer : PeerId) (group : GroupId) → Progress e (defer peer group e, [])
unfolding defer
defer-Progress e peer group = (
  λ (running, waiting, once). ground (
    arith,
    running,
    waiting,
    once,
    length-append e.deferred ((peer, group) ∷ []),
    queued_once-append e.deferred (peer, group),
  ),
  λ g f h. ground arith,
  tt,
)

begin-Progress :
    (e : Episodes) (group : GroupId) (f : InFlight)
    → Keyed.holds group e.inflight ≡ false
    → length e.inflight < max_inflight
    → Progress e (
      record e { inflight = Keyed.put group f e.inflight },
      GroupAction.fetch f.peer group f.from ∷ [],
    )
begin-Progress e group f idle room = (
  λ (running, waiting, once). (ground (arith, Keyed.length-put group f e.inflight), waiting, once),
  λ g h found. ground (arith, Keyed.find-put group g f e.inflight, bytes_eq_sound group g),
  (ground (arith, Keyed.find-put group group f e.inflight, bytes_eq_refl group), tt),
)

pub fetch-Progress :
    (now : Instant) (peer : PeerId) (group : GroupId) (from : ℕ) (e : Episodes)
    → Progress e (fetch now peer group from e)
unfolding fetch
fetch-Progress now peer group from e = elim (Bool-cases (Keyed.holds group e.inflight)) [
  | inl held ↦ rw held (Progress-none e)
  | inr idle ↦ elim (Bool-cases (leb max_inflight (length e.inflight))) [
    | inl full ↦ rw (idle, full) (defer-Progress e peer group)
    | inr room ↦
        rw (idle, room)
          (begin-Progress e group
            (record { peer = peer; from = from; deadline = now + fetch_timeout }) idle
            (ground arith))
  ]
]

pub start-Progress :
    (now : Instant) (is_admitted : PeerId → Bool) (head_of : GroupId → ℕ) (peer : PeerId)
    (group : GroupId) (e : Episodes)
    → Progress e (start now is_admitted head_of peer group e)
unfolding start
start-Progress now is_admitted head_of peer group e =
    elim (Bool-cases (not (is_admitted peer) || Keyed.holds group e.inflight)) [
      | inl passed_over ↦ rw passed_over (Progress-none e)
      | inr wanted ↦ rw wanted (fetch-Progress now peer group (head_of group) e)
    ]

module _ (X : Platform) (S : StoreOps X) where
  head-Progress :
      (now : Instant) (peer : PeerId) (head : GroupHead) (row : Result StoreError (Option GroupRow))
      (e : Episodes)
      → Progress e (on_head X S now peer head row e)
  unfolding on_head
  head-Progress now peer head (ok none) e = fetch-Progress now peer head.group 0 e
  head-Progress now peer head (ok (some row)) e =
      elim (Bool-cases
        (ltb row.head_seq head.head_seq || not (bytes_eq head.standings row.standings_digest))) [
          | inl behind ↦ rw behind (fetch-Progress now peer head.group row.head_seq e)
          | inr level ↦ rw level (Progress-none e)
        ]
  head-Progress now peer head (err error) e = Progress-none e

  heads-Progress :
      (store : S.Store) (now : Instant) (peer : PeerId) (hs : List GroupHead) (e : Episodes)
      → Progress e (fetch_heads X S store now peer hs e)
  unfolding fetch_heads
  heads-Progress store now peer [] e = Progress-none e
  heads-Progress store now peer (h ∷ hs) e =
      let r = on_head X S now peer h (S.get store h.group) e in
      Progress-both e r (λ e'. fetch_heads X S store now peer hs e')
        (head-Progress now peer h (S.get store h.group) e) (heads-Progress store now peer hs r.0)

  groups-Progress :
      (store : S.Store) (now : Instant) (peer : PeerId) (gs : List GroupId) (e : Episodes)
      → Progress e (fetch_groups X S store now peer gs e)
  unfolding fetch_groups
  groups-Progress store now peer [] e = Progress-none e
  groups-Progress store now peer (g ∷ gs) e =
      let r = fetch now peer g (head_in (S.get store g)) e in
      Progress-both e r (λ e'. fetch_groups X S store now peer gs e')
        (fetch-Progress now peer g (head_in (S.get store g)) e)
        (groups-Progress store now peer gs r.0)

  pub on_heads-Progress :
      (store : S.Store) (now : Instant) (peer : PeerId) (hs : List GroupHead) (e : Episodes)
      → Progress e (on_heads X S store now peer hs e)
  unfolding on_heads
  on_heads-Progress store now peer hs e =
      let named = take max_heads_per_answer hs in
      let r = fetch_heads X S store now peer named e in
      Progress-both e r
        (λ e'. fetch_groups X S store now peer (silently_omitted X S store peer named) e')
        (heads-Progress store now peer named e)
        (groups-Progress store now peer (silently_omitted X S store peer named) r.0)
