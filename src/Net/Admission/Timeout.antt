-- ===== src/Net/Admission/Timeout.antt =====
-- Handshakes whose time is over: admission.rs, tick.
use p2parchiver.Common.{
  ◌≡◌, refl, sym, ap, ◌∙◌, subst, inl, inr, Bool, true, false, Option, none, some, List, [], ◌∷◌,
  ◌++◌, arith, ◌==◌, if◌then◌else◌, ==_iff, Bool-cases, Option-cases,
}
use p2parchiver.Common.Map
use p2parchiver.Common.Map.{Map}
use p2parchiver.Common.Int.{ℤ}
use p2parchiver.Platform.{Platform, PeerId, Cbor}
use p2parchiver.Net.Attest.{Statement}
use p2parchiver.Net.Admission.{
  Admission, AdmissionAction, Why, Handshake, Instant, close, is_server, send_ours, close_peer,
  send_all, close_all, peers_where, unsent, overdue, send_waiting, close_overdue, ask_renewal,
  on_tick,
}
use p2parchiver.Net.Admission.Steps.{close_peer-KeptOrGone, send_all-Same, close_all-KeptOrGone}
use p2parchiver.Net.Admission.Trace.{Any}

-- Whether a peer has a handshake whose time is over before it is complete.
abbrev pub overdue_at : Instant → Option Handshake → Bool
overdue_at now none = false
overdue_at now (some h) = overdue now h

send_ours-overdue :
    (p : PeerId) (s : Admission) (q : PeerId) (now : Instant)
    → overdue_at now (Map.get p (send_ours s q).0.peers) ≡ overdue_at now (Map.get p s.peers)
unfolding send_ours
send_ours-overdue p s q now = elim (Option-cases s.mine) [
  | inl lacking ↦ ground arith
  | inr (mine, held) ↦ elim (Option-cases (Map.get q s.peers)) [
    | inl missing ↦ ground arith
    | inr (h, found) ↦
        ground (arith, Map.get-insert q p (record h { sent = true }) s.peers, ==_iff q p)
  ]
]

send_all-overdue :
    (p : PeerId) (s : Admission) (qs : List PeerId) (now : Instant)
    → overdue_at now (Map.get p (send_all s qs).0.peers) ≡ overdue_at now (Map.get p s.peers)
unfolding send_all
send_all-overdue p s [] now = refl
send_all-overdue p s (q ∷ qs) now =
    send_all-overdue p (send_ours s q).0 qs now ∙ send_ours-overdue p s q now

peers_where-overdue :
    (p : PeerId) (now : Instant) (m : Map Handshake)
    → overdue_at now (Map.get p m) ≡ true
    → Any (λ q. q ≡ p) (peers_where (overdue now) m)
unfolding peers_where
peers_where-overdue p now [] h = absurd cc
peers_where-overdue p now ((q, k) ∷ m) h = elim (Bool-cases (q == p)) [
  | inl same ↦ ground arith
  | inr other ↦ elim (Bool-cases (overdue now k)) [
    | inl late ↦
        let later = peers_where-overdue p now m (ground arith) in
        subst
          (λ b.
            Any (λ r. r ≡ p)
              (if b then q ∷ peers_where (overdue now) m else peers_where (overdue now) m))
          (sym late) (inr later)
    | inr timely ↦
        let later = peers_where-overdue p now m (ground arith) in
        subst
          (λ b.
            Any (λ r. r ≡ p)
              (if b then q ∷ peers_where (overdue now) m else peers_where (overdue now) m))
          (sym timely) later
  ]
]

Any-append_left : {A : Type 0} (P : A → Type 0) (xs ys : List A) → Any P xs → Any P (xs ++ ys)
Any-append_left P [] ys e = absurd e
Any-append_left P (x ∷ xs) ys (inl e) = inl e
Any-append_left P (x ∷ xs) ys (inr e) = inr (Any-append_left P xs ys e)

Any-append_right : {A : Type 0} (P : A → Type 0) (xs ys : List A) → Any P ys → Any P (xs ++ ys)
Any-append_right P [] ys e = e
Any-append_right P (x ∷ xs) ys e = inr (Any-append_right P xs ys e)

close_peer-closes :
    (p : PeerId) (s : Admission) (q : PeerId)
    → is_server s.server p ≡ false
    → q ≡ p
    → Any (λ a. a ≡ close p Why.timed_out) (close_peer s q Why.timed_out).1
      × (Map.get p (close_peer s q Why.timed_out).0.peers ≡ none)
unfolding close_peer
close_peer-closes p s q h e =
    (ground (arith, ap (λ r. close r Why.timed_out) e), ground (arith, Map.get-remove q p s.peers))

-- A peer in the list that is not the server is closed, and its handshake is gone.
close_all-closes :
    (p : PeerId) (s : Admission) (qs : List PeerId)
    → is_server s.server p ≡ false
    → Any (λ q. q ≡ p) qs
    → (Map.get p (close_all s qs).0.peers ≡ none)
      × Any (λ a. a ≡ close p Why.timed_out) (close_all s qs).1
unfolding close_all
close_all-closes p s [] h e = absurd e
close_all-closes p s (q ∷ qs) h (inl e) =
    let (closed, gone) = close_peer-closes p s q h e in
    let (served, kept, quiet) = close_all-KeptOrGone p (close_peer s q Why.timed_out).0 qs in
    (
      ground arith,
      Any-append_left (λ a. a ≡ close p Why.timed_out) (close_peer s q Why.timed_out).1
          (close_all (close_peer s q Why.timed_out).0 qs).1 closed,
    )
close_all-closes p s (q ∷ qs) h (inr later) =
    let first = close_peer-KeptOrGone p s q Why.timed_out in
    let (gone, closed) =
      close_all-closes p (close_peer s q Why.timed_out).0 qs
        (subst (λ v. is_server v p ≡ false) (sym first.0) h) later in
    (
      gone,
      Any-append_right (λ a. a ≡ close p Why.timed_out) (close_peer s q Why.timed_out).1
          (close_all (close_peer s q Why.timed_out).0 qs).1 closed,
    )

-- Closing the overdue leaves nobody overdue but the server, and closes whoever was.
abbrev pub Punctual : Instant → PeerId → Admission → Admission × List AdmissionAction → Type 0
Punctual now p s (s', acts) =
    (overdue_at now (Map.get p s'.peers) ≡ false)
    × (overdue_at now (Map.get p s.peers) ≡ true
        → (Map.get p s'.peers ≡ none) × Any (λ a. a ≡ close p Why.timed_out) acts)

close_overdue-Punctual :
    (now : Instant) (p : PeerId) (s : Admission)
    → is_server s.server p ≡ false
    → Punctual now p s (close_overdue s now)
unfolding close_overdue
close_overdue-Punctual now p s h = elim (Bool-cases (overdue_at now (Map.get p s.peers))) [
  | inl late ↦
      let closed =
        close_all-closes p s (peers_where (overdue now) s.peers) h
          (peers_where-overdue p now s.peers late) in
      (ground (arith, closed.0), λ h'. closed)
  | inr timely ↦ (
    ground (arith, close_all-KeptOrGone p s (peers_where (overdue now) s.peers)),
    λ h'. absurd cc,
  )
]

module _ (X : Platform) (cbor : Cbor Statement) where
  waiting-overdue :
      (p : PeerId) (s : Admission) (now : Instant) (at : ℤ) (server_connected : Bool)
      → (overdue_at now
            (Map.get p (send_waiting (ask_renewal X cbor s at server_connected).0).0.peers)
          ≡ overdue_at now (Map.get p s.peers))
        × ((send_waiting (ask_renewal X cbor s at server_connected).0).0.server ≡ s.server)
  unfolding ask_renewal send_waiting
  waiting-overdue p s now at server_connected =
      let asked = ask_renewal X cbor s at server_connected in
      let waiting = peers_where unsent asked.0.peers in
      (
        send_all-overdue p asked.0 waiting now ∙ ground arith,
        (send_all-Same p asked.0 waiting).0 ∙ ground arith,
      )

  -- After a tick no peer but the server has a handshake that is incomplete and past its deadline,
  -- and every such handshake before the tick was closed for being late.
  pub tick_closes_overdue :
      (s : Admission) (now : Instant) (at : ℤ) (server_connected : Bool) (p : PeerId)
      → is_server s.server p ≡ false
      → (overdue_at now (Map.get p (on_tick X cbor s now at server_connected).0.peers) ≡ false)
        × (overdue_at now (Map.get p s.peers) ≡ true
            → (Map.get p (on_tick X cbor s now at server_connected).0.peers ≡ none)
              × Any (λ a. a ≡ close p Why.timed_out) (on_tick X cbor s now at server_connected).1)
  unfolding on_tick send_waiting
  tick_closes_overdue s now at server_connected p h =
      let asked = ask_renewal X cbor s at server_connected in
      let waiting = send_waiting asked.0 in
      let (unmoved, served) = waiting-overdue p s now at server_connected in
      let (left, closed) =
        close_overdue-Punctual now p waiting.0
          (subst (λ v. is_server v p ≡ false) (sym served) h) in
      (
        left,
        λ late.
            let (gone, said) = closed (unmoved ∙ late) in
            (
              gone,
              Any-append_right (λ a. a ≡ close p Why.timed_out) (asked.1 ++ waiting.1)
                  (close_overdue waiting.0 now).1 said,
            ),
      )
