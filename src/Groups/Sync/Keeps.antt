-- ===== src/Groups/Sync/Keeps.antt =====
-- What the writes of a store keep, every event of the sync keeps: sync.rs, `on`, over any store.
use p2parchiver.Common.{
  ◌≡◌, arith, ℕ, Bool, true, false, not, ◌&&◌, ◌||◌, List, [], ◌∷◌, if◌then◌else◌, ◌==◌,
}
use p2parchiver.Common.Result.{Result, ok, err}
use p2parchiver.Common.Int.{ℤ}
use p2parchiver.Common.Bytes.{Bytes}
use p2parchiver.Common.Keyed
use p2parchiver.Platform.{Platform, PeerId}
use p2parchiver.Groups.Id.{GroupId}
use p2parchiver.Groups.Chain.Types.{Entry, Op}
use p2parchiver.Groups.Standing.{Standing, Position, unanswered}
use p2parchiver.Net.Admission.{Instant}
use p2parchiver.Net.AdmittedPeers.{AdmittedPeers}
use p2parchiver.Groups.Sync.Wire.{Applied, StoreError, StoreOps, GroupAction, GroupRow}
use p2parchiver.Groups.Sync.Heads.{
  awaits, admins, is_known, is_pending, names_or, has_spoken, or_nothing,
}
use p2parchiver.Groups.Sync.Machine.{
  GroupEvent, GroupSync, on, handle, on_entries, take_entries, on_outcome, on_tick, is_unready,
  drain_deferred, ratify, answer_invitation, record_departures, expire_pending, is_lapsed,
}

-- A predicate on stores that each write but `forget` keeps.
pub record Keeps (X : Platform) (S : StoreOps X) (P : S.Store → Type 0) : Type 0 where
  pub put :
      (t : S.Store) (g : GroupId) (from : ℕ) (es : List Entry) (ss : List Standing) (now : ℤ)
      → P t
      → P (S.put t g from es ss now).0
  pub adopt :
      (t : S.Store) (es : List Entry) (ss : List Standing) (now : ℤ)
      → P t
      → P (S.adopt t es ss now).0
  pub author :
      (t : S.Store) (key : X.Keypair) (g : GroupId) (op : Op) (at : ℤ)
      → P t
      → P (S.author t key g op at).0
  pub author_standing :
      (t : S.Store) (key : X.Keypair) (g : GroupId) (position : Position) (username : Bytes)
      (at : ℤ)
      → P t
      → P (S.author_standing t key g position username at).0

-- Ticks are what makes the sync forget.
abbrev pub is_tick : GroupEvent → Bool
is_tick (GroupEvent.tick now at) = true
is_tick _ = false

if-keeps : {A : Type 0} (P : A → Type 0) (b : Bool) (x y : A) → P x → P y → P (if b then x else y)
if-keeps P true x y px py = px
if-keeps P false x y px py = py

module _ (X : Platform) (S : StoreOps X) (P : S.Store → Type 0) (keeps : Keeps X S P) where
  abbrev Holds : GroupSync X S → Type 0
  Holds s = P s.store

  abbrev HoldsAfter : GroupSync X S × List GroupAction → Type 0
  HoldsAfter (s, acts) = P s.store

  abbrev Answered : S.Store × Result StoreError Applied → Type 0
  Answered (t, outcome) = P t

  departures-keeps :
      (t : S.Store) (key : X.Keypair) (me : PeerId) (g : GroupId) (ps : List PeerId) (at : ℤ)
      → P t
      → P (record_departures X S t key me g ps at)
  unfolding record_departures
  departures-keeps t key me g [] at h = h
  departures-keeps t key me g (p ∷ ps) at h =
      let t' = if p == me then t else (S.author t key g (Op.remove (X.to_base58 p)) at).0 in
      departures-keeps t' key me g ps at
        (if-keeps P (p == me) _ _ h (keeps.author t key g (Op.remove (X.to_base58 p)) at h))

  ratify-keeps :
      (s : GroupSync X S) (g : GroupId) (applied : Applied) (at : ℤ)
      → P s.store
      → P (ratify X S s g applied at).store
  unfolding ratify
  ratify-keeps s g applied at h =
      if-keeps Holds (not (admins s.me (S.get s.store g))) _ _ h
        (departures-keeps s.store s.key s.me g applied.departed at h)

  answer-keeps :
      (s : GroupSync X S) (g : GroupId) (at : ℤ)
      → P s.store
      → P (answer_invitation X S s g at).store
  unfolding answer_invitation
  answer-keeps s g at h =
      if-keeps Holds
        (not (is_pending (S.get s.store g))
          || not (names_or false s.me (S.members s.store g))
          || has_spoken (S.my_standing_seq s.store g))
        _ _ h (keeps.author_standing s.store s.key g unanswered s.username at h)

  outcome-keeps :
      (s : GroupSync X S) (now : Instant) (peer : PeerId) (g : GroupId)
      (outcome : Result StoreError Applied)
      → P s.store
      → P (on_outcome X S s now peer g outcome).0.store
  unfolding on_outcome
  outcome-keeps s now peer g (ok applied) h =
      ratify-keeps (answer_invitation X S s g s.now_at) g applied s.now_at
        (answer-keeps s g s.now_at h)
  outcome-keeps s now peer g (err (StoreError.gap want got)) h = h
  outcome-keeps s now peer g (err _) h = h

  take-keeps :
      (s : GroupSync X S) (now : Instant) (peer : PeerId) (g : GroupId) (from : ℕ) (es : List Entry)
      (ss : List Standing)
      → P s.store
      → P (take_entries X S s now peer g from es ss).0.store
  unfolding take_entries
  take-keeps s now peer g from es ss h =
      let answer =
        if is_known (S.get s.store g)
        then S.put s.store g from es ss s.now_at
        else S.adopt s.store es ss s.now_at in
      outcome-keeps
        (record s {
          store = answer.0;
          episodes = record s.episodes { inflight = Keyed.erase g s.episodes.inflight };
        })
        now peer g answer.1
        (if-keeps Answered (is_known (S.get s.store g)) _ _
          (keeps.put s.store g from es ss s.now_at h) (keeps.adopt s.store es ss s.now_at h))

  handle-keeps :
      (s : GroupSync X S) (now : Instant) (event : GroupEvent) (admitted : AdmittedPeers)
      → is_tick event ≡ false
      → P s.store
      → P (handle X S s now event admitted).0.store
  unfolding handle on_entries
  handle-keeps s now (GroupEvent.heads peer hs) admitted other h = h
  handle-keeps s now (GroupEvent.entries peer g from es ss) admitted other h =
      if-keeps HoldsAfter (not (awaits peer from (Keyed.find g s.episodes.inflight))) _ _ h
        (take-keeps s now peer g from es ss h)
  handle-keeps s now (GroupEvent.unavailable peer g) admitted other h = h
  handle-keeps s now (GroupEvent.fetch_failed peer g) admitted other h = h
  handle-keeps s now (GroupEvent.ask_failed peer) admitted other h = h
  handle-keeps s now (GroupEvent.tick now' at) admitted other h = absurd (ground (arith, other))

  -- An event other than a tick keeps what the writes keep.
  pub on-keeps :
      (s : GroupSync X S) (now : Instant) (event : GroupEvent) (admitted : AdmittedPeers)
      → is_tick event ≡ false
      → P s.store
      → P (on X S s now event admitted).0.store
  unfolding on drain_deferred
  on-keeps s now event admitted other h =
      if-keeps HoldsAfter (is_unready X S event admitted) _ _ h
        (handle-keeps s now event admitted other h)

module _ (X : Platform) (S : StoreOps X) (P : S.Store → Type 0)
    (keeps_forget : (t : S.Store) (g : GroupId) → P t → P (S.forget t g).0) where
  expire-keeps :
      (t : S.Store) (me : PeerId) (rows : List GroupRow) (at : ℤ)
      → P t
      → P (expire_pending X S t me rows at)
  unfolding expire_pending
  expire-keeps t me [] at h = h
  expire-keeps t me (r ∷ rows) at h =
      let t' =
        if is_lapsed X S at r && not (names_or true me (S.members t r.id))
        then (S.forget t r.id).0
        else t in
      expire-keeps t' me rows at (
        if-keeps P (is_lapsed X S at r && not (names_or true me (S.members t r.id))) _ _
          (keeps_forget t r.id h) h)

  -- A tick keeps what `forget` keeps.
  pub tick-keeps :
      (s : GroupSync X S) (now now' : Instant) (at : ℤ) (admitted : AdmittedPeers)
      → P s.store
      → P (on X S s now (GroupEvent.tick now' at) admitted).0.store
  unfolding on handle on_tick drain_deferred
  tick-keeps s now now' at admitted h = expire-keeps s.store s.me (or_nothing (S.list s.store)) at h
