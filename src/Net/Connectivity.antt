-- ===== src/Net/Connectivity.antt =====
-- crates/ac-net/src/connectivity.rs: how each peer is reachable right now. An `Instant` is a number of
-- nanoseconds, and the clock that an operation reads is its first argument.
pub mod Laws
use p2parchiver.Common.{
  ℕ, zero, suc, ◌+◌, ◌-◌, ◌*◌, ◌/◌, ◌%◌, ◌^◌, ◌≤◌, ◌<◌, min, max, ◌≡◌, refl, sym, ap, ◌∙◌, subst,
  fun_ext, ◌≢◌, ◌↔◌, ◌⊎◌, inl, inr, Bool, true, false, not, ◌&&◌, ◌||◌, Option, none, some, List,
  [], ◌∷◌, ◌++◌, map, append_assoc, append-nil, arith, ltb, leb, ◌==◌, if◌then◌else◌, is_some,
  ltb→lt, leb→le, ==_iff, ==_refl, Bool-cases, Option-cases, &&-eq-true, length, get_elem?, take,
  drop, keep_if, any_of, All, length-append, length-take, length-drop, length-keep_if-le,
  All-append,
}
use p2parchiver.Common.Bytes.{
  Bytes, bytes_eq, bytes_lt, bytes_eq_sound, bytes_eq_refl, bytes_eq_iff,
}
use p2parchiver.Common.Map
use p2parchiver.Common.Map.{Map}
use p2parchiver.Common.Result.{
  Result, ok, err, Result-cases, ok-injective, ok≢err, bind_ok, ◌>>=◌, ◌>>◌, fail_if, ok_or,
}
use p2parchiver.Common.Int.{
  ℤ, pos, negsuc, ◌+ℤ◌, ◌-ℤ◌, ◌≤ℤ◌, ◌<ℤ◌, pos_part, neg_part, ltb_ℤ, leb_ℤ, +ℤ_parts, -ℤ_parts,
}
use p2parchiver.Platform.{Platform, PeerId, Cbor}
use p2parchiver.Net.Admission.{Instant}

abbrev pub upgrade_timeout : ℕ
upgrade_timeout = 15 * 1000000000

pub data State : Type 0 where
  disconnected upgrade_pending relayed direct : State

-- `State::is_relayed`
abbrev pub is_relayed : State → Bool
is_relayed upgrade_pending = true
is_relayed relayed = true
is_relayed _ = false

-- `==` of two states.
abbrev pub same_state : State → State → Bool
same_state disconnected disconnected = true
same_state upgrade_pending upgrade_pending = true
same_state relayed relayed = true
same_state direct direct = true
same_state _ _ = false

-- The texts that say why.
pub data Reason : Type 0 where
  new_peer relayed_established direct_established all_closed : Reason
  punch_succeeded punch_failed punch_never_reported : Reason

pub record PeerState : Type 0 where
  pub state : State
  pub since : Instant
  pub reason : Reason
  pub attempts : ℕ
  pub relayed_since : Option Instant

-- `PeerState::new`
abbrev pub new_state : Instant → State → Reason → PeerState
new_state now state reason = record {
  state = state;
  since = now;
  reason = reason;
  attempts = 0;
  relayed_since = none;
}

-- `PeerState::enter`
unfoldable pub enter : Instant → State → Reason → PeerState → PeerState
enter now state reason p =
    if same_state p.state state
    then record p { state = state; reason = reason }
    else record p { state = state; since = now; reason = reason }

abbrev since_relayed : Instant → Option Instant → Option ℕ
since_relayed since none = none
since_relayed since (some r) = some (since - r)

-- `PeerState::upgrade_took`
unfoldable pub upgrade_took : PeerState → Option ℕ
upgrade_took p =
    if not (same_state p.state direct) then none else since_relayed p.since p.relayed_since

-- `state == UpgradePending && since.elapsed() > UPGRADE_TIMEOUT`
abbrev pub ran_out : Instant → PeerState → Bool
ran_out now p = same_state p.state upgrade_pending && ltb upgrade_timeout (now - p.since)

-- `PeerState::effective_state`
unfoldable pub effective_state : Instant → PeerState → State
effective_state now p = if ran_out now p then relayed else p.state

abbrev pub Connectivity : Type 0
Connectivity = Map PeerState

abbrev or_new : Instant → Option PeerState → PeerState
or_new now none = new_state now disconnected new_peer
or_new now (some p) = p

-- `get_or_insert_with(Instant::now)`
abbrev or_now : Instant → Option Instant → Option Instant
or_now now none = some now
or_now now (some r) = some r

-- What a new connection makes of an entry: a direct one is not replaced by a relayed one.
unfoldable pub on_connection : Instant → Bool → PeerState → PeerState
on_connection now is_relayed p =
    if is_relayed
    then if same_state p.state direct
      then p
      else enter now upgrade_pending relayed_established
          (record p { relayed_since = or_now now p.relayed_since })
    else enter now direct direct_established p

-- `Connectivity::connected`
unfoldable pub connected : Instant → PeerId → Bool → Connectivity → Connectivity
connected now peer is_relayed c =
    Map.insert peer (on_connection now is_relayed (or_new now (Map.get peer c))) c

-- `Connectivity::disconnected`
unfoldable pub on_disconnected : Instant → PeerId → Bool → Connectivity → Connectivity
on_disconnected now peer still_connected c =
    if still_connected
    then c
    else Map.modify peer
        (λ p. record (enter now disconnected all_closed p) { relayed_since = none }) c

-- What DCUtR's report makes of an entry; `attempts` is a `u32`.
unfoldable pub on_punch : Instant → Bool → PeerState → PeerState
on_punch now succeeded p =
    let tried = record p { attempts = (p.attempts + 1) % 2 ^ 32 } in
    if succeeded
    then enter now direct punch_succeeded tried
    else enter now relayed punch_failed tried

-- `Connectivity::hole_punch`
unfoldable pub hole_punch : Instant → PeerId → Bool → Connectivity → Connectivity
hole_punch now peer succeeded c = Map.modify peer (on_punch now succeeded) c

-- `Connectivity::expire_upgrades`, with the peers that moved.
unfoldable pub expire_upgrades : Instant → Connectivity → Connectivity × List PeerId
expire_upgrades now [] = ([], [])
expire_upgrades now ((peer, p) ∷ c) =
    let (c', expired) = expire_upgrades now c in
    if ran_out now p
    then ((peer, enter now relayed punch_never_reported p) ∷ c', peer ∷ expired)
    else ((peer, p) ∷ c', expired)

abbrev settled_state : State → Bool
settled_state upgrade_pending = false
settled_state _ = true

abbrev settled_entry : Instant → Option PeerState → Bool
settled_entry now none = true
settled_entry now (some p) = settled_state (effective_state now p)

-- `Connectivity::is_settled`
unfoldable pub is_settled : Instant → Connectivity → PeerId → Bool
is_settled now c peer = settled_entry now (Map.get peer c)

-- `Connectivity::state`
abbrev pub state_or : Option PeerState → State
state_or none = disconnected
state_or (some p) = p.state

abbrev pub state_of : Connectivity → PeerId → State
state_of c peer = state_or (Map.get peer c)

-- `Connectivity::connected_peers`
unfoldable pub connected_peers : Connectivity → Connectivity
connected_peers c = Map.retain (λ peer p. not (same_state p.state disconnected)) c
