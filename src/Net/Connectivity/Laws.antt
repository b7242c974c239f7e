-- ===== src/Net/Connectivity/Laws.antt =====
-- What holds of every peer's connection after any operations, and when one counts as settled:
-- connectivity.rs.
use p2parchiver.Common.{
  ◌≡◌, refl, Bool, true, false, not, Option, none, some, List, [], ◌∷◌, arith, if◌then◌else◌,
  is_some,
}
use p2parchiver.Common.Map
use p2parchiver.Common.Map.{Map}
use p2parchiver.Platform.{PeerId}
use p2parchiver.Net.Admission.{Instant}
use p2parchiver.Net.Connectivity.{
  PeerState, Connectivity, disconnected, upgrade_pending, relayed, enter, on_connection, connected,
  on_disconnected, on_punch, hole_punch, expire_upgrades, is_settled, effective_state, ran_out,
  or_new, state_of, is_relayed, Reason,
}

-- A pending upgrade knows when the relayed connection came up, and a disconnected peer has none.
abbrev pub is_sound : PeerState → Bool
is_sound p = elim p.state [
  | upgrade_pending ↦ is_some p.relayed_since
  | disconnected ↦ not (is_some p.relayed_since)
  | _ ↦ true
]

abbrev pub entry_is_sound : Option PeerState → Bool
entry_is_sound none = true
entry_is_sound (some p) = is_sound p

-- Of every peer.
abbrev pub IsSound : Connectivity → Type 0
IsSound c = (p : PeerId) → entry_is_sound (Map.get p c) ≡ true

pub data Operation : Type 0 where
  connect : PeerId → Bool → Operation
  disconnect : PeerId → Bool → Operation
  punch : PeerId → Bool → Operation
  expire : Operation

-- One operation, at the time of the clock.
unfoldable pub apply : Instant → Operation → Connectivity → Connectivity
apply now (connect peer is_relayed) c = connected now peer is_relayed c
apply now (disconnect peer still_connected) c = on_disconnected now peer still_connected c
apply now (punch peer succeeded) c = hole_punch now peer succeeded c
apply now expire c = (expire_upgrades now c).0

-- The operations in turn, each with its time.
unfoldable pub apply_all : List (Instant × Operation) → Connectivity → Connectivity
apply_all [] c = c
apply_all ((now, op) ∷ ops) c = apply_all ops (apply now op c)

abbrev expired_if : Instant → Option PeerState → Option PeerState
expired_if now none = none
expired_if now (some p) =
    some (if ran_out now p then enter now relayed Reason.punch_never_reported p else p)

abbrev pub entry_ran_out : Instant → Option PeerState → Bool
entry_ran_out now none = false
entry_ran_out now (some p) = ran_out now p

get-expire_upgrades :
    (now : Instant) (c : Connectivity) (p : PeerId)
    → Map.get p (expire_upgrades now c).0 ≡ expired_if now (Map.get p c)
unfolding expire_upgrades
get-expire_upgrades now [] p = refl
get-expire_upgrades now ((q, s) ∷ c) p = ground (arith, get-expire_upgrades now c p)

connection_sound :
    (now : Instant) (is_relayed : Bool) (s : PeerState)
    → is_sound s ≡ true
    → is_sound (on_connection now is_relayed s) ≡ true
unfolding on_connection enter
connection_sound now is_relayed s h = ground arith

connected-IsSound :
    (now : Instant) (q : PeerId) (is_relayed : Bool) (c : Connectivity)
    → IsSound c
    → IsSound (connected now q is_relayed c)
unfolding connected
connected-IsSound now q is_relayed c sound p =
    let s = or_new now (Map.get q c) in
    ground (
      arith,
      connection_sound now is_relayed s,
      Map.get-insert q p (on_connection now is_relayed s) c,
      sound p,
      sound q,
    )

disconnected-IsSound :
    (now : Instant) (q : PeerId) (still_connected : Bool) (c : Connectivity)
    → IsSound c
    → IsSound (on_disconnected now q still_connected c)
unfolding on_disconnected enter
disconnected-IsSound now q still_connected c sound p = ground (
  arith,
  Map.get-modify q p
      (λ s. record (enter now disconnected Reason.all_closed s) { relayed_since = none }) c,
  sound p,
)

punch-IsSound :
    (now : Instant) (q : PeerId) (succeeded : Bool) (c : Connectivity)
    → IsSound c
    → IsSound (hole_punch now q succeeded c)
unfolding hole_punch on_punch enter
punch-IsSound now q succeeded c sound p =
    ground (arith, Map.get-modify q p (on_punch now succeeded) c, sound p)

expire-IsSound : (now : Instant) (c : Connectivity) → IsSound c → IsSound (expire_upgrades now c).0
unfolding enter
expire-IsSound now c sound p = ground (arith, get-expire_upgrades now c p, sound p)

-- Any operations, at any times, keep it so that every pending upgrade knows when its relayed
-- connection came up, and that no disconnected peer has such a time.
pub apply_all-IsSound :
    (ops : List (Instant × Operation)) (c : Connectivity) → IsSound c → IsSound (apply_all ops c)
unfolding apply_all apply
apply_all-IsSound [] c sound = sound
apply_all-IsSound ((now, connect q is_relayed) ∷ ops) c sound =
    apply_all-IsSound ops (connected now q is_relayed c)
      (connected-IsSound now q is_relayed c sound)
apply_all-IsSound ((now, disconnect q still_connected) ∷ ops) c sound =
    apply_all-IsSound ops (on_disconnected now q still_connected c)
      (disconnected-IsSound now q still_connected c sound)
apply_all-IsSound ((now, punch q succeeded) ∷ ops) c sound =
    apply_all-IsSound ops (hole_punch now q succeeded c) (punch-IsSound now q succeeded c sound)
apply_all-IsSound ((now, expire) ∷ ops) c sound =
    apply_all-IsSound ops (expire_upgrades now c).0 (expire-IsSound now c sound)

-- Expiring the upgrades moves exactly the peers whose upgrade ran out of time to relayed, changes
-- nobody else's state, leaves no upgrade that ran out, and changes for no peer whether it is settled.
pub expire_upgrades_lem :
    (now : Instant) (c : Connectivity) (p : PeerId)
    → (state_of (expire_upgrades now c).0 p
        ≡ (if entry_ran_out now (Map.get p c) then relayed else state_of c p))
      × (entry_ran_out now (Map.get p (expire_upgrades now c).0) ≡ false)
      × (is_settled now (expire_upgrades now c).0 p ≡ is_settled now c p)
unfolding is_settled effective_state enter
expire_upgrades_lem now c p = ground (arith, get-expire_upgrades now c p)
