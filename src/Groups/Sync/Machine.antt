-- ===== src/Groups/Sync/Machine.antt =====
-- The state machine of the sync: sync.rs, GroupSync with on and on_request.
use p2parchiver.Common.{
  ℕ, ◌*◌, Bool, true, false, not, ◌&&◌, ◌||◌, Option, some, List, [], ◌∷◌, ◌++◌, ltb, ◌==◌,
  if◌then◌else◌, length, take,
}
use p2parchiver.Common.Bytes.{Bytes}
use p2parchiver.Common.Result.{Result, ok, err}
use p2parchiver.Common.Int.{ℤ, pos, ◌-ℤ◌, leb_ℤ}
use p2parchiver.Platform.{Platform, PeerId}
use p2parchiver.Common.Keyed
use p2parchiver.Common.Keyed.{Keyed}
use p2parchiver.Groups.Id.{GroupId}
use p2parchiver.Groups.Chain.Types.{Entry, Op}
use p2parchiver.Groups.Standing.{Standing, unanswered}
use p2parchiver.Net.Admission.{Instant}
use p2parchiver.Net.Budget
use p2parchiver.Net.Budget.{TickBudget}
use p2parchiver.Net.AdmittedPeers.{AdmittedPeers, is_ready, is_admitted}
use p2parchiver.Groups.Sync.Wire.{
  GroupHead, GroupRequest, GroupResponse, GroupRow, Applied, Served, StoreError, StoreOps,
  GroupAction, max_heads_per_answer,
}
use p2parchiver.Groups.Sync.Fetches.{Episodes, fetch, drain, keep_deferred}
use p2parchiver.Groups.Sync.Heads.{
  or_nothing, head_in, is_known, is_pending, admins, names_or, has_spoken, awaits, runs_at,
  on_heads,
}

abbrev pub answers_per_tick : ℕ
answers_per_tick = 8

abbrev pub pending_ttl : ℕ
pending_ttl = 30 * 24 * 3600

pub data GroupEvent : Type 0 where
  heads : PeerId → List GroupHead → GroupEvent
  entries : PeerId → GroupId → ℕ → List Entry → List Standing → GroupEvent
  unavailable : PeerId → GroupId → GroupEvent
  fetch_failed : PeerId → GroupId → GroupEvent
  ask_failed : PeerId → GroupEvent
  tick : Instant → ℤ → GroupEvent

module _ (X : Platform) (S : StoreOps X) where
  pub record GroupSync : Type 0 where
    pub store : S.Store
    pub me : PeerId
    pub key : X.Keypair
    pub username : Bytes
    -- the fields `inflight` and `deferred`
    pub episodes : Episodes
    pub budget : TickBudget
    pub now_at : ℤ

  -- `GroupSync::new`
  abbrev pub new : S.Store → X.Keypair → Bytes → GroupSync
  new store key username = record {
    store = store;
    me = X.peer_of_key key;
    key = key;
    username = username;
    episodes = record { inflight = []; deferred = [] };
    budget = Budget.new answers_per_tick;
    now_at = pos 0;
  }

  abbrev heads_of : Result StoreError (List GroupHead) → GroupResponse
  heads_of r = GroupResponse.heads (take max_heads_per_answer (or_nothing r))

  abbrev served_as : GroupId → ℕ → Result StoreError (Option Served) → GroupResponse
  served_as group from (ok (some s)) = GroupResponse.entries group from s.entries s.standings
  served_as group from _ = GroupResponse.unavailable

  abbrev respond : S.Store → PeerId → GroupRequest → GroupResponse
  respond store peer GroupRequest.ask = heads_of (S.log_shared_with store peer)
  respond store peer (GroupRequest.fetch group from) =
      served_as group from (S.serve store group peer from)

  -- `GroupSync::on_request`; the list of actions it returns is always empty.
  unfoldable pub on_request :
      GroupSync → PeerId → GroupRequest → AdmittedPeers → GroupSync × GroupResponse
  on_request s peer request admitted =
      let (budget, spent) = Budget.spend s.budget peer in
      if not (is_admitted admitted peer)
      then (s, GroupResponse.unavailable)
      else if not spent
      then (record s { budget = budget }, GroupResponse.unavailable)
      else (record s { budget = budget }, respond s.store peer request)

  abbrev after_author : S.Store × Result StoreError Entry → S.Store
  after_author (store, r) = store

  -- The removals of `ratify`, in turn; a failed one is passed over.
  unfoldable pub record_departures :
      S.Store → X.Keypair → PeerId → GroupId → List PeerId → ℤ → S.Store
  record_departures store key me group [] at = store
  record_departures store key me group (p ∷ ps) at =
      let store' =
        if p == me
        then store
        else after_author (S.author store key group (Op.remove (X.to_base58 p)) at) in
      record_departures store' key me group ps at

  -- `GroupSync::ratify`
  unfoldable pub ratify : GroupSync → GroupId → Applied → ℤ → GroupSync
  ratify s group applied at =
      if not (admins s.me (S.get s.store group))
      then s
      else record s { store = record_departures s.store s.key s.me group applied.departed at }

  -- `GroupSync::answer_invitation`
  unfoldable pub answer_invitation : GroupSync → GroupId → ℤ → GroupSync
  answer_invitation s group at =
      if not (is_pending (S.get s.store group))
        || not (names_or false s.me (S.members s.store group))
        || has_spoken (S.my_standing_seq s.store group)
      then s
      else record s { store = (S.author_standing s.store s.key group unanswered s.username at).0 }

  abbrev with_fetch : GroupSync → Episodes × List GroupAction → GroupSync × List GroupAction
  with_fetch s (e, acts) = (record s { episodes = e }, acts)

  -- What `on_entries` does with the store's answer.
  unfoldable pub on_outcome :
      GroupSync
      → Instant
      → PeerId
      → GroupId
      → Result StoreError Applied
      → GroupSync × List GroupAction
  on_outcome s now peer group (ok applied) =
      (ratify (answer_invitation s group s.now_at) group applied s.now_at, [])
  on_outcome s now peer group (err (StoreError.gap want got)) =
      with_fetch s (fetch now peer group want s.episodes)
  on_outcome s now peer group (err _) = (s, [])

  abbrev stored :
      GroupSync
      → Instant
      → PeerId
      → GroupId
      → S.Store × Result StoreError Applied
      → GroupSync × List GroupAction
  stored s now peer group (store, outcome) =
      on_outcome (record s { store = store }) now peer group outcome

  -- `on_entries` after its early return: the episode is over, and the store takes the answer.
  unfoldable pub take_entries :
      GroupSync
      → Instant
      → PeerId
      → GroupId
      → ℕ
      → List Entry
      → List Standing
      → GroupSync × List GroupAction
  take_entries s now peer group from es standings =
      stored
        (record s {
          episodes = record s.episodes { inflight = Keyed.erase group s.episodes.inflight };
        })
        now peer group
        (if is_known (S.get s.store group)
          then S.put s.store group from es standings s.now_at
          else S.adopt s.store es standings s.now_at)

  -- `GroupSync::on_entries`: only the answer that is waited for moves the store.
  unfoldable pub on_entries :
      GroupSync
      → Instant
      → PeerId
      → GroupId
      → ℕ
      → List Entry
      → List Standing
      → GroupSync × List GroupAction
  on_entries s now peer group from es standings =
      if not (awaits peer from (Keyed.find group s.episodes.inflight))
      then (s, [])
      else take_entries s now peer group from es standings

  -- `GroupSync::finish`
  unfoldable pub finish : GroupId → PeerId → Episodes → Episodes
  finish group peer e =
      if runs_at peer (Keyed.find group e.inflight)
      then record e { inflight = Keyed.erase group e.inflight }
      else e

  abbrev pub is_lapsed : ℤ → GroupRow → Bool
  is_lapsed at row = is_pending (ok (some row)) && leb_ℤ (pos pending_ttl) (at -ℤ row.first_seen)

  -- `GroupSync::expire_pending`; members that cannot be read count as naming us.
  unfoldable pub expire_pending : S.Store → PeerId → List GroupRow → ℤ → S.Store
  expire_pending store me [] at = store
  expire_pending store me (row ∷ rows) at =
      let store' =
        if is_lapsed at row && not (names_or true me (S.members store row.id))
        then (S.forget store row.id).0
        else store in
      expire_pending store' me rows at

  -- `GroupSync::tick`
  unfoldable pub on_tick : GroupSync → Instant → ℤ → AdmittedPeers → GroupSync
  on_tick s now at admitted = record s {
    now_at = at;
    budget = Budget.reset s.budget;
    episodes = record {
      inflight =
          Keyed.keep (λ f. ltb now f.deadline && is_ready admitted f.peer) s.episodes.inflight;
      deferred = keep_deferred (is_admitted admitted) s.episodes.deferred;
    };
    store = expire_pending s.store s.me (or_nothing (S.list s.store)) at;
  }

  -- The `match` of `GroupSync::on`, before the freed slots are filled; `now` is the clock.
  unfoldable pub handle :
      GroupSync → Instant → GroupEvent → AdmittedPeers → GroupSync × List GroupAction
  handle s now (GroupEvent.heads peer hs) admitted =
      with_fetch s (on_heads X S s.store now peer hs s.episodes)
  handle s now (GroupEvent.entries peer group from es standings) admitted =
      on_entries s now peer group from es standings
  handle s now (GroupEvent.unavailable peer group) admitted =
      (record s { episodes = finish group peer s.episodes }, [])
  handle s now (GroupEvent.fetch_failed peer group) admitted =
      (record s { episodes = finish group peer s.episodes }, [])
  handle s now (GroupEvent.ask_failed peer) admitted = (s, [])
  handle s now (GroupEvent.tick now' at) admitted = (on_tick s now' at admitted, [])

  -- `drain_deferred`, with fuel for every entry of the queue.
  unfoldable pub drain_deferred :
      Instant → AdmittedPeers → GroupSync × List GroupAction → GroupSync × List GroupAction
  drain_deferred now admitted (s, acts) =
      let (e, more) =
        drain (length s.episodes.deferred) now (is_admitted admitted)
          (λ group. head_in (S.get s.store group)) s.episodes in
      (record s { episodes = e }, acts ++ more)

  -- Heads of a peer that is not ready are passed over, and then nothing is drained.
  abbrev pub is_unready : GroupEvent → AdmittedPeers → Bool
  is_unready (GroupEvent.heads peer hs) admitted = not (is_ready admitted peer)
  is_unready _ admitted = false

  -- `GroupSync::on`
  unfoldable pub on :
      GroupSync → Instant → GroupEvent → AdmittedPeers → GroupSync × List GroupAction
  on s now event admitted =
      if is_unready event admitted
      then (s, [])
      else drain_deferred now admitted (handle s now event admitted)
