-- ===== src/Groups/Sync/Steps.antt =====
-- What one event does: the bounds, the awaited answers, and who may move the store. sync.rs, `on`.
use p2parchiver.Common.{
  ℕ, ◌≤◌, ◌≡◌, refl, sym, ◌∙◌, subst, ◌⊎◌, inl, inr, Bool, true, false, not, ◌&&◌, List, [], ◌∷◌,
  arith, ltb, if◌then◌else◌, Bool-cases, length, keep_if, length-keep_if-le,
}
use p2parchiver.Common.Result.{Result, ok, err}
use p2parchiver.Common.Int.{ℤ}
use p2parchiver.Platform.{Platform, PeerId}
use p2parchiver.Common.Keyed
use p2parchiver.Common.Keyed.{Keyed}
use p2parchiver.Groups.Id.{GroupId}
use p2parchiver.Groups.Chain.Types.{Entry}
use p2parchiver.Groups.Standing.{Standing}
use p2parchiver.Net.Admission.{Instant}
use p2parchiver.Net.AdmittedPeers.{AdmittedPeers, is_ready, is_admitted}
use p2parchiver.Groups.Sync.Wire.{Applied, StoreError, StoreOps, GroupAction}
use p2parchiver.Groups.Sync.Fetches.{Episodes, drain}
use p2parchiver.Groups.Sync.Heads.{head_in, is_known, awaits}
use p2parchiver.Groups.Sync.Machine.{
  GroupEvent, GroupSync, on, handle, on_entries, take_entries, on_outcome, on_tick, finish,
  drain_deferred, is_unready, ratify, answer_invitation,
}
use p2parchiver.Groups.Sync.Fetches.{max_inflight}
use p2parchiver.Groups.Sync.Bounds.{
  IsBounded, IsAwaited, Progress-both, fetch-Progress, on_heads-Progress, queued_once, waits,
}
use p2parchiver.Groups.Sync.Drain.{drain-Progress, drain-finishes}

waits-keep :
    (g : GroupId) (t : PeerId × GroupId → Bool) (ds : List (PeerId × GroupId))
    → waits g ds ≡ false
    → waits g (keep_if t ds) ≡ false
waits-keep g t [] h = refl
waits-keep g t (d ∷ ds) h = ground (arith, waits-keep g t ds)

queued_once-keep :
    (t : PeerId × GroupId → Bool) (ds : List (PeerId × GroupId))
    → queued_once ds ≡ true
    → queued_once (keep_if t ds) ≡ true
queued_once-keep t [] h = refl
queued_once-keep t (d ∷ ds) h = ground (arith, queued_once-keep t ds, waits-keep d.1 t ds)

module _ (X : Platform) (S : StoreOps X) where
  -- An event that may move the store: a tick, or the answer that is awaited.
  abbrev pub may_move : GroupSync X S → GroupEvent → Bool
  may_move s (GroupEvent.tick now at) = true
  may_move s (GroupEvent.entries peer group from es standings) =
      awaits peer from (Keyed.find group s.episodes.inflight)
  may_move s _ = false

  -- What handling an event keeps.
  abbrev Handled : GroupSync X S → GroupSync X S × List GroupAction → Type 0
  Handled s (s', acts) = (IsBounded s.episodes → IsBounded s'.episodes) × IsAwaited s'.episodes acts

  abbrev Kept : GroupSync X S → GroupSync X S × List GroupAction → Type 0
  Kept s (s', acts) = IsBounded s'.episodes × IsAwaited s'.episodes acts

  abbrev drained :
      GroupSync X S → Instant → GroupEvent → AdmittedPeers → GroupSync X S × List GroupAction
  drained s now event admitted = drain_deferred X S now admitted (handle X S s now event admitted)

  erase-IsBounded :
      (group : GroupId) (e : Episodes)
      → IsBounded e
      → IsBounded (record e { inflight = Keyed.erase group e.inflight })
  erase-IsBounded group e (running, waiting, once) =
      (ground (arith, Keyed.length-erase group e.inflight), waiting, once)

  ratify-episodes :
      (s : GroupSync X S) (group : GroupId) (applied : Applied) (at : ℤ)
      → (ratify X S s group applied at).episodes ≡ s.episodes
  unfolding ratify
  ratify-episodes s group applied at = ground arith

  answer-episodes :
      (s : GroupSync X S) (group : GroupId) (at : ℤ)
      → (answer_invitation X S s group at).episodes ≡ s.episodes
  unfolding answer_invitation
  answer-episodes s group at = ground arith

  outcome-Handled :
      (s : GroupSync X S) (now : Instant) (peer : PeerId) (group : GroupId)
      (outcome : Result StoreError Applied)
      → Handled s (on_outcome X S s now peer group outcome)
  unfolding on_outcome
  outcome-Handled s now peer group (ok applied) = (
    subst (λ e. IsBounded s.episodes → IsBounded e)
        (sym (
          ratify-episodes (answer_invitation X S s group s.now_at) group applied s.now_at
          ∙ answer-episodes s group s.now_at))
        (λ b. b),
    tt,
  )
  outcome-Handled s now peer group (err (StoreError.gap want got)) =
      let (bounded, kept, awaited) = fetch-Progress now peer group want s.episodes in
      (bounded, awaited)
  outcome-Handled s now peer group (err _) = (λ b. b, tt)

  take-Handled :
      (s : GroupSync X S) (now : Instant) (peer : PeerId) (group : GroupId) (from : ℕ)
      (es : List Entry) (standings : List Standing)
      → Handled s (take_entries X S s now peer group from es standings)
  unfolding take_entries
  take-Handled s now peer group from es standings =
      let answer =
        if is_known (S.get s.store group)
        then S.put s.store group from es standings s.now_at
        else S.adopt s.store es standings s.now_at in
      let s' : GroupSync X S = record s {
        episodes = record s.episodes { inflight = Keyed.erase group s.episodes.inflight };
        store = answer.0;
      } in
      let (bounded, awaited) = outcome-Handled s' now peer group answer.1 in
      (λ b. bounded (erase-IsBounded group s.episodes b), awaited)

  entries-Handled :
      (s : GroupSync X S) (now : Instant) (peer : PeerId) (group : GroupId) (from : ℕ)
      (es : List Entry) (standings : List Standing)
      → Handled s (on_entries X S s now peer group from es standings)
  unfolding on_entries
  entries-Handled s now peer group from es standings =
      elim (Bool-cases (awaits peer from (Keyed.find group s.episodes.inflight))) [
        | inl awaited ↦
            subst
              (λ b.
                Handled s
                  (if not b then (s, []) else take_entries X S s now peer group from es standings))
              (sym awaited) (take-Handled s now peer group from es standings)
        | inr unasked ↦
            subst
              (λ b.
                Handled s
                  (if not b then (s, []) else take_entries X S s now peer group from es standings))
              (sym unasked) (λ b. b, tt)
      ]

  tick-IsBounded :
      (s : GroupSync X S) (now : Instant) (at : ℤ) (admitted : AdmittedPeers)
      → IsBounded s.episodes
      → IsBounded (on_tick X S s now at admitted).episodes
  unfolding on_tick
  tick-IsBounded s now at admitted (running, waiting, once) = (
    ground (
      arith,
      Keyed.length-keep (λ f. ltb now f.deadline && is_ready admitted f.peer) s.episodes.inflight,
    ),
    ground (arith, length-keep_if-le (λ d. is_admitted admitted d.0) s.episodes.deferred),
    queued_once-keep (λ d. is_admitted admitted d.0) s.episodes.deferred once,
  )

  finish-IsBounded :
      (group : GroupId) (peer : PeerId) (e : Episodes)
      → IsBounded e
      → IsBounded (finish X S group peer e)
  unfolding finish
  finish-IsBounded group peer e (running, waiting, once) =
      ground (arith, running, waiting, once, Keyed.length-erase group e.inflight)

  handle-Handled :
      (s : GroupSync X S) (now : Instant) (event : GroupEvent) (admitted : AdmittedPeers)
      → Handled s (handle X S s now event admitted)
  unfolding handle
  handle-Handled s now (GroupEvent.heads peer hs) admitted =
      let (bounded, kept, awaited) = on_heads-Progress X S s.store now peer hs s.episodes in
      (bounded, awaited)
  handle-Handled s now (GroupEvent.entries peer group from es standings) admitted =
      entries-Handled s now peer group from es standings
  handle-Handled s now (GroupEvent.unavailable peer group) admitted =
      (finish-IsBounded group peer s.episodes, tt)
  handle-Handled s now (GroupEvent.fetch_failed peer group) admitted =
      (finish-IsBounded group peer s.episodes, tt)
  handle-Handled s now (GroupEvent.ask_failed peer) admitted = (λ b. b, tt)
  handle-Handled s now (GroupEvent.tick now' at) admitted = (tick-IsBounded s now' at admitted, tt)

  -- Draining after a handled event.
  drained-Handled :
      (s : GroupSync X S) (now : Instant) (admitted : AdmittedPeers)
      (r : GroupSync X S × List GroupAction)
      → Handled s r
      → Handled s (drain_deferred X S now admitted r)
  unfolding drain_deferred
  drained-Handled s now admitted r (bounded, awaited) =
      let e = r.0.episodes in
      let head_of : GroupId → ℕ = λ group. head_in (S.get r.0.store group) in
      let refill : Episodes → Episodes × List GroupAction =
        λ x. drain (length e.deferred) now (is_admitted admitted) head_of x in
      let (bounded', kept', awaited') =
        drain-Progress now (is_admitted admitted) head_of (length e.deferred) e in
      let (b'', k'', a'') =
        Progress-both e (e, r.1) refill (λ b. b, λ g f h. h, awaited) (bounded', kept', awaited') in
      (λ b. bounded' (bounded b), a'')

  -- Handling any event keeps at most 8 fetches running and at most 256 groups waiting, none of them
  -- twice, and awaits the answer to every request that goes out.
  pub on-IsBounded :
      (s : GroupSync X S) (now : Instant) (event : GroupEvent) (admitted : AdmittedPeers)
      → IsBounded s.episodes
      → IsBounded (on X S s now event admitted).0.episodes
        × IsAwaited (on X S s now event admitted).0.episodes (on X S s now event admitted).1
  unfolding on
  on-IsBounded s now event admitted bounded = elim (Bool-cases (is_unready X S event admitted)) [
    | inl unready ↦
        subst (λ b. Kept s (if b then (s, []) else drained s now event admitted)) (sym unready)
          (bounded, tt)
    | inr ready ↦
        let (b, a) =
          drained-Handled s now admitted (handle X S s now event admitted)
            (handle-Handled s now event admitted) in
        subst (λ t. Kept s (if t then (s, []) else drained s now event admitted)) (sym ready)
          (b bounded, a)
  ]

  -- After any event that is not passed over, either 8 fetches run or no group waits.
  pub on-drains :
      (s : GroupSync X S) (now : Instant) (event : GroupEvent) (admitted : AdmittedPeers)
      → is_unready X S event admitted ≡ false
      → (max_inflight ≤ length (on X S s now event admitted).0.episodes.inflight)
        ⊎ ((on X S s now event admitted).0.episodes.deferred ≡ [])
  unfolding on drain_deferred
  on-drains s now event admitted ready =
      let s' = (handle X S s now event admitted).0 in
      subst
        (λ t.
          (max_inflight
            ≤ length (if t then (s, []) else drained s now event admitted).0.episodes.inflight)
          ⊎ ((if t then (s, []) else drained s now event admitted).0.episodes.deferred ≡ []))
        (sym ready)
        (drain-finishes now (is_admitted admitted) (λ group. head_in (S.get s'.store group))
          (length s'.episodes.deferred) s'.episodes (omega arith))

  -- The store is left alone by every event but a tick and the one answer that is awaited.
  pub store_stays :
      (s : GroupSync X S) (now : Instant) (event : GroupEvent) (admitted : AdmittedPeers)
      → may_move s event ≡ false
      → (on X S s now event admitted).0.store ≡ s.store
  unfolding on drain_deferred handle on_entries
  store_stays s now (GroupEvent.heads peer hs) admitted h = ground arith
  store_stays s now (GroupEvent.entries peer group from es standings) admitted h = ground arith
  store_stays s now (GroupEvent.unavailable peer group) admitted h = refl
  store_stays s now (GroupEvent.fetch_failed peer group) admitted h = refl
  store_stays s now (GroupEvent.ask_failed peer) admitted h = refl
  store_stays s now (GroupEvent.tick now' at) admitted h = absurd cc
