-- ===== src/Groups/Sync/Fetches.antt =====
-- The fetches that are running and the groups that wait for a slot: the fields `inflight` and
-- `deferred` of `GroupSync`, with fetch, defer and drain_deferred of crates/ac-groups/src/sync.rs.
use p2parchiver.Common.{
  ℕ, zero, suc, ◌+◌, ◌*◌, Bool, not, ◌||◌, Option, none, some, List, [], ◌∷◌, ◌++◌, leb,
  if◌then◌else◌, length, keep_if, any_of,
}
use p2parchiver.Common.Bytes.{bytes_eq}
use p2parchiver.Platform.{PeerId}
use p2parchiver.Common.Keyed
use p2parchiver.Common.Keyed.{Keyed}
use p2parchiver.Groups.Id.{GroupId}
use p2parchiver.Net.Admission.{Instant}
use p2parchiver.Groups.Sync.Wire.{GroupAction}

abbrev pub fetch_timeout : ℕ
fetch_timeout = 30 * 1000000000

abbrev pub max_inflight : ℕ
max_inflight = 8

abbrev pub max_deferred : ℕ
max_deferred = 256

pub record InFlight : Type 0 where
  pub peer : PeerId
  pub from : ℕ
  pub deadline : Instant

pub record Episodes : Type 0 where
  pub inflight : Keyed InFlight
  pub deferred : List (PeerId × GroupId)

-- `GroupSync::defer`
unfoldable pub defer : PeerId → GroupId → Episodes → Episodes
defer peer group e =
    if any_of (λ d. bytes_eq d.1 group) e.deferred
    then e
    else if leb max_deferred (length e.deferred)
    then e
    else record e { deferred = e.deferred ++ (peer, group) ∷ [] }

-- `GroupSync::fetch`
unfoldable pub fetch : Instant → PeerId → GroupId → ℕ → Episodes → Episodes × List GroupAction
fetch now peer group from e =
    if Keyed.holds group e.inflight
    then (e, [])
    else if leb max_inflight (length e.inflight)
    then (defer peer group e, [])
    else (
      record e {
        inflight =
            Keyed.put group (record { peer = peer; from = from; deadline = now + fetch_timeout })
              e.inflight;
      },
      GroupAction.fetch peer group from ∷ [],
    )

-- One popped entry of `deferred`: passed over when its peer is gone or its group is being fetched.
unfoldable pub start :
    Instant
    → (PeerId → Bool)
    → (GroupId → ℕ)
    → PeerId
    → GroupId
    → Episodes
    → Episodes × List GroupAction
start now is_admitted head_of peer group e =
    if not (is_admitted peer) || Keyed.holds group e.inflight
    then (e, [])
    else fetch now peer group (head_of group) e

-- The actions of two parts in turn.
abbrev pub both :
    Episodes × List GroupAction
    → (Episodes → Episodes × List GroupAction)
    → Episodes × List GroupAction
both (e, acts) f = let (e', more) = f e in (e', acts ++ more)

abbrev first_of : List (PeerId × GroupId) → Episodes → Option ((PeerId × GroupId) × Episodes)
first_of [] e = none
first_of (d ∷ rest) e = some (d, record e { deferred = rest })

-- The head of the loop: what is popped while fewer than the maximum are running.
unfoldable pub pop : Episodes → Option ((PeerId × GroupId) × Episodes)
pop e = if leb max_inflight (length e.inflight) then none else first_of e.deferred e

-- `GroupSync::drain_deferred`, on fuel: each turn takes one entry off the queue.
unfoldable pub drain :
    ℕ → Instant → (PeerId → Bool) → (GroupId → ℕ) → Episodes → Episodes × List GroupAction
drain zero now is_admitted head_of e = (e, [])
drain (suc n) now is_admitted head_of e = elim (pop e) [
  | none ↦ (e, [])
  | some ((peer, group), popped) ↦
      both (start now is_admitted head_of peer group popped)
        (λ e'. drain n now is_admitted head_of e')
]

-- `deferred.retain(..)`
abbrev pub keep_deferred : (PeerId → Bool) → List (PeerId × GroupId) → List (PeerId × GroupId)
keep_deferred is_admitted deferred = keep_if (λ d. is_admitted d.0) deferred
