-- ===== src/Net/Admission/Trace.antt =====
-- Runs of the admission: who is announced, and how often. admission.rs.
use p2parchiver.Common.{
  ℕ, ◌+◌, ◌≡◌, refl, ◌⊎◌, inl, inr, Bool, true, false, Option, none, some, List, [], ◌∷◌, ◌++◌,
  arith, ◌==◌, if◌then◌else◌,
}
use p2parchiver.Common.Bytes.{Bytes}
use p2parchiver.Common.Map
use p2parchiver.Common.Map.{Map}
use p2parchiver.Common.Result.{ok}
use p2parchiver.Common.Int.{ℤ}
use p2parchiver.Platform.{Platform, PeerId, Cbor}
use p2parchiver.Net.Attest.{Attestation, Statement}
use p2parchiver.Net.Admission.{
  Admission, AdmissionAction, AdmissionEvent, Handshake, Instant, send, renew, close, admitted, on,
  on_request, judged,
}
use p2parchiver.Net.Admission.Steps.{IsQuiet, proved, is_announced}

-- What the daemon hands the machine: an event, or a request that presents an attestation.
pub data Input : Type 0 where
  event : AdmissionEvent → Input
  request : PeerId → Attestation → Instant → ℤ → Input

abbrev pub named_by : Option Handshake → Option Bytes
named_by h = (proved h).0

abbrev pub passed : Option Handshake → Bool
passed h = (proved h).1

abbrev pub Any : {A : Type 0} → (A → Type 0) → List A → Type 0
Any P [] = ⊥
Any P (x ∷ xs) = P x ⊎ Any P xs

-- The input is a word from this peer that it accepted our attestation.
abbrev pub Accepts : PeerId → Input → Type 0
Accepts p (event (AdmissionEvent.accepted q)) = q ≡ p
Accepts p _ = ⊥

abbrev pub Emits : PeerId → Bytes → List AdmissionAction → Type 0
Emits p u acts = Any (λ a. a ≡ admitted p u) acts

-- How often a peer is announced.
abbrev pub times_admitted : PeerId → List AdmissionAction → ℕ
times_admitted p [] = 0
times_admitted p (admitted q u ∷ acts) = (if q == p then 1 else 0) + times_admitted p acts
times_admitted p (send q a ∷ acts) = times_admitted p acts
times_admitted p (renew q ∷ acts) = times_admitted p acts
times_admitted p (close q why ∷ acts) = times_admitted p acts

abbrev pub one_if : Bool → ℕ
one_if true = 1
one_if false = 0

pub IsQuiet-silent :
    (p : PeerId) (u : Bytes) (acts : List AdmissionAction) → IsQuiet acts → Emits p u acts → ⊥
IsQuiet-silent p u [] q e = e
IsQuiet-silent p u (a ∷ acts) q (inl e) = ground (arith, e)
IsQuiet-silent p u (a ∷ acts) q (inr later) = IsQuiet-silent p u acts (ground arith) later

pub IsQuiet-times :
    (p : PeerId) (acts : List AdmissionAction) → IsQuiet acts → times_admitted p acts ≡ 0
IsQuiet-times p [] q = refl
IsQuiet-times p (admitted r u ∷ acts) q = ground arith
IsQuiet-times p (send r a ∷ acts) q = IsQuiet-times p acts q
IsQuiet-times p (renew r ∷ acts) q = IsQuiet-times p acts q
IsQuiet-times p (close r why ∷ acts) q = IsQuiet-times p acts q

pub Emits-append :
    (p : PeerId) (u : Bytes) (acts more : List AdmissionAction)
    → IsQuiet acts
    → Emits p u (acts ++ more)
    → Emits p u more
Emits-append p u [] more quiet e = e
Emits-append p u (a ∷ acts) more quiet (inl now) = absurd (ground (arith, now))
Emits-append p u (a ∷ acts) more quiet (inr later) = Emits-append p u acts more (ground arith) later

pub times_admitted-append :
    (p : PeerId) (acts more : List AdmissionAction)
    → times_admitted p (acts ++ more) ≡ times_admitted p acts + times_admitted p more
times_admitted-append p [] more = omega arith
times_admitted-append p (admitted q u ∷ acts) more =
    ground (arith, times_admitted-append p acts more)
times_admitted-append p (send q a ∷ acts) more = times_admitted-append p acts more
times_admitted-append p (renew q ∷ acts) more = times_admitted-append p acts more
times_admitted-append p (close q why ∷ acts) more = times_admitted-append p acts more

pub Emits-one : (p q : PeerId) (u v : Bytes) → Emits p u (admitted q v ∷ []) → (q ≡ p) × (v ≡ u)
Emits-one p q u v (inl e) = (cc, cc)
Emits-one p q u v (inr none_left) = elim none_left [ ]

module _ (X : Platform) (cbor : Cbor Statement) where
  -- The input is a request from this peer, whose attestation verifies with this username.
  abbrev pub Presents : Option PeerId → PeerId → Bytes → Input → Type 0
  Presents server p u (request q a now at) = (q ≡ p) × (judged X cbor a q at server ≡ ok u)
  Presents server p u (event e) = ⊥

  -- One step of the machine, and the actions it asks for.
  unfoldable pub step : Admission → Input → Admission × List AdmissionAction
  step s (event e) = on X cbor s e
  step s (request peer a now at) = (on_request X cbor s peer a now at).1

  -- What one step does to the evidence about a peer and to its announcement.
  unfoldable pub StepFacts : PeerId → Admission → Input → Admission × List AdmissionAction → Type 0
  StepFacts p s i (s', acts) =
      (s'.server ≡ s.server)
      × ((u : Bytes)
          → named_by (Map.get p s'.peers) ≡ some u
          → (named_by (Map.get p s.peers) ≡ some u) ⊎ Presents s.server p u i)
      × (passed (Map.get p s'.peers) ≡ true → (passed (Map.get p s.peers) ≡ true) ⊎ Accepts p i)
      × ((u : Bytes)
          → Emits p u acts
          → (named_by (Map.get p s'.peers) ≡ some u) × (passed (Map.get p s'.peers) ≡ true))
      × ((times_admitted p acts + one_if (is_announced (Map.get p s.peers))
            ≡ one_if (is_announced (Map.get p s'.peers)))
          ⊎ (Map.get p s'.peers ≡ none))
