-- ===== src/Net/AdmittedPeers.antt =====
-- crates/ac-net/src/admitted_peers.rs: the admitted peers, each settling or ready.
use p2parchiver.Common.{
  ℕ, ◌+◌, ◌≤◌, ◌≡◌, refl, Bool, true, false, not, ◌&&◌, ◌||◌, Option, some, List, [], ◌∷◌, arith,
  ◌==◌, if◌then◌else◌, ==_iff,
}
use p2parchiver.Common.Map
use p2parchiver.Common.Map.{Map}
use p2parchiver.Platform.{PeerId}
use p2parchiver.Net.Admission.{Instant}
use p2parchiver.Net.Connectivity.{Connectivity, is_settled}

pub data Standing : Type 0 where
  settling ready : Standing

abbrev pub AdmittedPeers : Type 0
AdmittedPeers = Map Standing

-- `AdmittedPeers::admitted`
abbrev pub admit : PeerId → AdmittedPeers → AdmittedPeers
admit peer a = Map.insert peer settling a

abbrev pub is_ready_entry : Option Standing → Bool
is_ready_entry (some ready) = true
is_ready_entry _ = false

-- `AdmittedPeers::disconnected`, with whether a ready peer went.
unfoldable pub disconnect : PeerId → Bool → AdmittedPeers → AdmittedPeers × Bool
disconnect peer still_connected a =
    if still_connected then (a, false) else (Map.remove peer a, is_ready_entry (Map.get peer a))

-- `AdmittedPeers::promote`, with the peers that became ready.
unfoldable pub promote : Instant → Connectivity → AdmittedPeers → AdmittedPeers × List PeerId
promote now c [] = ([], [])
promote now c ((peer, standing) ∷ a) =
    let (a', became) = promote now c a in
    if is_ready_entry (some standing) || not (is_settled now c peer)
    then ((peer, standing) ∷ a', became)
    else ((peer, ready) ∷ a', peer ∷ became)

-- `AdmittedPeers::is_ready`
abbrev pub is_ready : AdmittedPeers → PeerId → Bool
is_ready a peer = is_ready_entry (Map.get peer a)

-- `AdmittedPeers::is_admitted`
abbrev pub is_admitted : AdmittedPeers → PeerId → Bool
is_admitted a peer = Map.contains peer a

abbrev pub times : PeerId → List PeerId → ℕ
times p [] = 0
times p (q ∷ qs) = (if q == p then 1 else 0) + times p qs

promote-Above :
    (now : Instant) (c : Connectivity) (a : AdmittedPeers) (b p : ℕ)
    → Map.Above b a
    → p ≤ b
    → times p (promote now c a).1 ≡ 0
unfolding promote
promote-Above now c [] b p above h = refl
promote-Above now c ((q, s) ∷ a) b p above h = ground (arith, promote-Above now c a b p above.1 h)

-- Promotion names each peer that becomes ready exactly once and nobody else: a peer is ready after it
-- just when it was ready, or was admitted and its connection is settled; everybody stays admitted.
pub promote_lem :
    (now : Instant) (c : Connectivity) (a : AdmittedPeers) (p : PeerId)
    → Map.IsSorted a
    → (is_ready (promote now c a).0 p ≡ (is_ready a p || (is_admitted a p && is_settled now c p)))
      × (is_admitted (promote now c a).0 p ≡ is_admitted a p)
      × (times p (promote now c a).1
          ≡ (if is_ready a p then 0 else if is_ready (promote now c a).0 p then 1 else 0))
unfolding promote
promote_lem now c [] p sorted = (refl, refl, refl)
promote_lem now c ((q, s) ∷ a) p sorted =
    ground (arith, promote_lem now c a p sorted.1, promote-Above now c a q p sorted.0, ==_iff q p)
