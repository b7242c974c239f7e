-- ===== src/Net/Admission.antt =====
-- crates/ac-net/src/admission.rs: the mutual attestation check between connected peers. The proofs
-- are in the modules below.
pub mod Trace
pub mod Steps
pub mod Evidence
pub mod Runs
pub mod Closing
pub mod Timeout
use p2parchiver.Common.{
  ℕ, zero, suc, ◌+◌, ◌-◌, ◌*◌, ◌/◌, ◌%◌, ◌^◌, ◌≤◌, ◌<◌, min, max, ◌≡◌, refl, sym, ap, ◌∙◌, subst,
  fun_ext, ◌≢◌, ◌↔◌, ◌⊎◌, inl, inr, Bool, true, false, not, ◌&&◌, ◌||◌, Option, none, some, List,
  [], ◌∷◌, ◌++◌, map, append_assoc, append-nil, arith, ltb, leb, ◌==◌, if◌then◌else◌, is_some,
  ltb→lt, leb→le, ==_iff, ==_refl, Bool-cases, Option-cases, &&-eq-true, length, get_elem?, take,
  drop, keep_if, any_of, All, length-append, length-take, length-drop, length-keep_if-le,
  All-append,
}
use p2parchiver.Common.Bytes.{
  Bytes, bytes_eq, bytes_lt, bytes_eq_sound, bytes_eq_refl, bytes_eq_iff,
}
use p2parchiver.Common.Map
use p2parchiver.Common.Map.{Map}
use p2parchiver.Common.Result.{
  Result, ok, err, Result-cases, ok-injective, ok≢err, bind_ok, ◌>>=◌, ◌>>◌, fail_if, ok_or,
}
use p2parchiver.Common.Int.{
  ℤ, pos, negsuc, ◌+ℤ◌, ◌-ℤ◌, ◌≤ℤ◌, ◌<ℤ◌, pos_part, neg_part, ltb_ℤ, leb_ℤ, +ℤ_parts, -ℤ_parts,
}
use p2parchiver.Platform.{Platform, PeerId, Cbor}
use p2parchiver.Net.Attest
use p2parchiver.Net.Attest.{Attestation, AttestError, Statement}

-- An `Instant` is a number of nanoseconds since some start, and 15 seconds of them.
abbrev pub Instant : Type 0
Instant = ℕ

abbrev pub handshake_timeout : ℕ
handshake_timeout = 15 * 1000000000

-- The reasons that the source writes as text.
pub data Why : Type 0 where
  not_enrolled : Why
  refused : AttestError → Why
  they_rejected : Bytes → Why
  timed_out : Why

pub data AdmissionAction : Type 0 where
  send : PeerId → Attestation → AdmissionAction
  renew : PeerId → AdmissionAction
  close : PeerId → Why → AdmissionAction
  admitted : PeerId → Bytes → AdmissionAction

pub data Renewal : Type 0 where
  issued : Attestation → Renewal
  refused : Bytes → Renewal
  failed : Bytes → Renewal

pub data AdmissionEvent : Type 0 where
  connected : PeerId → Instant → AdmissionEvent
  disconnected : PeerId → Bool → AdmissionEvent
  accepted : PeerId → AdmissionEvent
  rejected : PeerId → Bytes → AdmissionEvent
  exchange_failed : PeerId → AdmissionEvent
  -- with the clock that the code reads when it handles the answer
  renewed : Renewal → ℤ → AdmissionEvent
  tick : Instant → ℤ → Bool → AdmissionEvent

pub record Handshake : Type 0 where
  pub sent : Bool
  pub username : Option Bytes
  pub we_passed : Bool
  pub announced : Bool
  pub deadline : Instant

-- `Handshake::new`
abbrev pub fresh : Instant → Handshake
fresh now = record {
  sent = false;
  username = none;
  we_passed = false;
  announced = false;
  deadline = now + handshake_timeout;
}

-- `Handshake::complete`
abbrev pub complete : Handshake → Bool
complete h = is_some h.username && h.we_passed

pub record Admission : Type 0 where
  pub me : PeerId
  pub server : Option PeerId
  pub mine : Option Attestation
  pub renewing : Bool
  pub peers : Map Handshake

abbrev pub is_server : Option PeerId → PeerId → Bool
is_server none peer = false
is_server (some s) peer = s == peer

-- The actions of two steps in turn.
abbrev pub and_then :
    Admission × List AdmissionAction
    → (Admission → Admission × List AdmissionAction)
    → Admission × List AdmissionAction
and_then (s, acts) f = let (s', more) = f s in (s', acts ++ more)

-- The handshake of a peer, written back; no actions for a peer that has none.
abbrev send_with :
    Admission → PeerId → Option Attestation → Option Handshake → Admission × List AdmissionAction
send_with s peer none h = (s, [])
send_with s peer (some mine) none = (s, [])
send_with s peer (some mine) (some h) = if h.sent then (s, []) else (
  record s { peers = Map.insert peer (record h { sent = true }) s.peers },
  send peer mine ∷ [],
)

-- `Admission::send_ours`
unfoldable pub send_ours : Admission → PeerId → Admission × List AdmissionAction
send_ours s peer = send_with s peer s.mine (Map.get peer s.peers)

abbrev settle_with :
    Admission → PeerId → Option Handshake → Option Bytes → Admission × List AdmissionAction
settle_with s peer (some h) (some username) = if not (complete h) || h.announced then (s, []) else (
  record s { peers = Map.insert peer (record h { announced = true }) s.peers },
  admitted peer username ∷ [],
)
settle_with s peer _ _ = (s, [])

abbrev claimed : Option Handshake → Option Bytes
claimed none = none
claimed (some h) = h.username

-- `Admission::settle`
unfoldable pub settle : Admission → PeerId → Admission × List AdmissionAction
settle s peer = settle_with s peer (Map.get peer s.peers) (claimed (Map.get peer s.peers))

-- `Admission::close`: the server is never closed.
unfoldable pub close_peer : Admission → PeerId → Why → Admission × List AdmissionAction
close_peer s peer why =
    if is_server s.server peer
    then (s, [])
    else (record s { peers = Map.remove peer s.peers }, close peer why ∷ [])

-- `entry(peer).and_modify(..).or_insert_with(..)` of `connected`.
abbrev begun : Instant → Option Handshake → Handshake
begun now none = fresh now
begun now (some h) = record h { sent = false; deadline = now + handshake_timeout }

abbrev connected_with :
    Admission → PeerId → Instant → Option PeerId → Admission × List AdmissionAction
connected_with s peer now none = close_peer s peer not_enrolled
connected_with s peer now (some server) =
    if peer == server
    then (s, [])
    else send_ours (record s { peers = Map.insert peer (begun now (Map.get peer s.peers)) s.peers })
        peer

-- `Admission::connected`
unfoldable pub on_connected : Admission → PeerId → Instant → Admission × List AdmissionAction
on_connected s peer now = connected_with s peer now s.server

-- `Admission::exchange_failed`
unfoldable pub on_exchange_failed : Admission → PeerId → Admission × List AdmissionAction
on_exchange_failed s peer =
    (record s { peers = Map.modify peer (λ h. record h { sent = false }) s.peers }, [])

-- Each of the peers in turn.
unfoldable pub send_all : Admission → List PeerId → Admission × List AdmissionAction
send_all s [] = (s, [])
send_all s (p ∷ ps) = and_then (send_ours s p) (λ s'. send_all s' ps)

unfoldable pub close_all : Admission → List PeerId → Admission × List AdmissionAction
close_all s [] = (s, [])
close_all s (p ∷ ps) = and_then (close_peer s p timed_out) (λ s'. close_all s' ps)

-- The peers whose handshake passes a test.
unfoldable pub peers_where : (Handshake → Bool) → Map Handshake → List PeerId
peers_where test [] = []
peers_where test ((p, h) ∷ m) = let rest = peers_where test m in if test h then p ∷ rest else rest

abbrev pub unsent : Handshake → Bool
unsent h = not h.sent

abbrev pub overdue : Instant → Handshake → Bool
overdue now h = not (complete h) && leb h.deadline now

-- Send to everyone whose exchange waits for a credential.
unfoldable pub send_waiting : Admission → Admission × List AdmissionAction
send_waiting s = send_all s (peers_where unsent s.peers)

unfoldable pub close_overdue : Admission → Instant → Admission × List AdmissionAction
close_overdue s now = close_all s (peers_where (overdue now) s.peers)

module _ (X : Platform) (cbor : Cbor Statement) where
  -- `self.mine.as_ref().is_none_or(|a| a.needs_renewal(at))`
  abbrev renewal_due : Option Attestation → ℤ → Bool
  renewal_due none at = true
  renewal_due (some a) at = Attest.needs_renewal X cbor a at

  abbrev ask_with : Admission → Option PeerId → Bool → Admission × List AdmissionAction
  ask_with s none due = (s, [])
  ask_with s (some server) due =
      if due then (record s { renewing = true }, renew server ∷ []) else (s, [])

  -- The first part of `tick`: ask the server for a fresh attestation when one is due.
  unfoldable pub ask_renewal : Admission → ℤ → Bool → Admission × List AdmissionAction
  ask_renewal s at server_connected =
      ask_with s s.server (renewal_due s.mine at && not s.renewing && server_connected)

  -- `Admission::tick`
  unfoldable pub on_tick : Admission → Instant → ℤ → Bool → Admission × List AdmissionAction
  on_tick s now at server_connected =
      and_then (and_then (ask_renewal s at server_connected) send_waiting)
        (λ s'. close_overdue s' now)

  abbrev store_mine :
      Admission → Attestation → Result AttestError Statement → Admission × List AdmissionAction
  store_mine s a (ok statement) = send_waiting (record s { mine = some a })
  store_mine s a (err e) = (s, [])

  abbrev renewed_with : Admission → Renewal → ℤ → Option PeerId → Admission × List AdmissionAction
  renewed_with s renewal at none = (s, [])
  renewed_with s (issued a) at (some server) =
      store_mine s a (Attest.verify X cbor a s.me server at)
  renewed_with s (refused reason) at (some server) = (s, [])
  renewed_with s (failed error) at (some server) = (s, [])

  -- `Admission::renewed`; the attestation is also cached in a file, which has no part here.
  unfoldable pub on_renewed : Admission → Renewal → ℤ → Admission × List AdmissionAction
  on_renewed s renewal at = renewed_with (record s { renewing = false }) renewal at s.server

  -- `Admission::on`
  unfoldable pub on : Admission → AdmissionEvent → Admission × List AdmissionAction
  on s (connected peer now) = on_connected s peer now
  on s (disconnected peer still_connected) =
      (if still_connected then s else record s { peers = Map.remove peer s.peers }, [])
  on s (accepted peer) =
      settle (record s { peers = Map.modify peer (λ h. record h { we_passed = true }) s.peers })
        peer
  on s (rejected peer why) = close_peer s peer (they_rejected why)
  on s (exchange_failed peer) = on_exchange_failed s peer
  on s (renewed renewal at) = on_renewed s renewal at
  on s (tick now at server_connected) = on_tick s now at server_connected

  abbrev name_in : Result AttestError Statement → Result Why Bytes
  name_in (ok statement) = ok statement.username
  name_in (err e) = err (refused e)

  abbrev judged : Attestation → PeerId → ℤ → Option PeerId → Result Why Bytes
  judged a peer at none = err not_enrolled
  judged a peer at (some server) = name_in (Attest.verify X cbor a peer server at)

  -- What `on_request` makes of a presented attestation.
  unfoldable pub verdict : Admission → PeerId → Attestation → ℤ → Result Why Bytes
  verdict s peer a at = judged a peer at s.server

  -- `entry(peer).or_insert_with(..).username = Some(username)`
  abbrev named : Instant → Bytes → Option Handshake → Handshake
  named now username none = record (fresh now) { username = some username }
  named now username (some h) = record h { username = some username }

  abbrev answer :
      Admission
      → PeerId
      → Instant
      → Result Why Bytes
      → Result Why (Unit {0}) × (Admission × List AdmissionAction)
  answer s peer now (ok username) = (
    ok tt,
    and_then
        (send_ours
          (record s { peers = Map.insert peer (named now username (Map.get peer s.peers)) s.peers })
          peer)
        (λ s'. settle s' peer),
  )
  answer s peer now (err why) = (err why, close_peer s peer why)

  -- `Admission::on_request`: the response, accepted or rejected with a reason, and the actions.
  unfoldable pub on_request :
      Admission
      → PeerId
      → Attestation
      → Instant
      → ℤ
      → Result Why (Unit {0}) × (Admission × List AdmissionAction)
  on_request s peer a now at = answer s peer now (verdict s peer a at)

  abbrev usable : PeerId → PeerId → ℤ → Option Attestation → Option Attestation
  usable me server at none = none
  usable me server at (some a) = elim (Attest.verify X cbor a me server at) [
    | ok statement ↦ some a
    | err e ↦ none
  ]

  -- `Admission::load`, given what the attestation file holds.
  unfoldable pub load : Option Attestation → PeerId → Option PeerId → ℤ → Admission
  load stored me none at = record {
    me = me;
    server = none;
    mine = none;
    renewing = false;
    peers = [];
  }
  load stored me (some server) at = record {
    me = me;
    server = some server;
    mine = usable me server at stored;
    renewing = false;
    peers = [];
  }
