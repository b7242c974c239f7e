-- ===== src/Groups/Sync/Drain.antt =====
-- Filling the freed slots: sync.rs, drain_deferred.
use p2parchiver.Common.{
  ℕ, zero, suc, ◌≤◌, ◌<◌, ◌≡◌, refl, sym, ap, ◌∙◌, subst, ◌⊎◌, inl, inr, Bool, none, some, List, [],
  ◌∷◌, arith, Option-cases, length,
}
use p2parchiver.Platform.{PeerId}
use p2parchiver.Common.Keyed
use p2parchiver.Common.Keyed.{Keyed}
use p2parchiver.Groups.Id.{GroupId}
use p2parchiver.Net.Admission.{Instant}
use p2parchiver.Groups.Sync.Fetches.{pop, both, Episodes, fetch, drain, start, max_inflight}
use p2parchiver.Groups.Sync.Bounds.{
  Progress, Progress-none, Progress-both, start-Progress, queued_once,
}

List-cases : {A : Type 0} (xs : List A) → (xs ≡ []) ⊎ ((x : A) × (rest : List A) × (xs ≡ x ∷ rest))
List-cases [] = inl refl
List-cases (x ∷ xs) = inr (x, xs, refl)

module _ (now : Instant) (is_admitted : PeerId → Bool) (head_of : GroupId → ℕ) where
  pop-Progress :
      (e popped : Episodes) (d : PeerId × GroupId)
      → pop e ≡ some (d, popped)
      → (length e.inflight < max_inflight)
        × (e.deferred ≡ d ∷ popped.deferred)
        × (popped.inflight ≡ e.inflight)
  unfolding pop
  pop-Progress e popped d h = elim (List-cases e.deferred) [
    | inl empty ↦ absurd (ground arith)
    | inr (x, rest, queue) ↦ (ground arith, ground arith, ground arith)
  ]

  popped-Progress :
      (e popped : Episodes) (d : PeerId × GroupId)
      → pop e ≡ some (d, popped)
      → Progress e (popped, [])
  popped-Progress e popped d h =
      let (room, queue, same) = pop-Progress e popped d h in
      (
        λ (running, waiting, once). (
          subst (λ m. length m ≤ max_inflight) (sym same) running,
          ground (arith, ap length queue),
          ground (arith, ap queued_once queue),
        ),
        λ g f found. ap (λ m. Keyed.find g m) same ∙ found,
        tt,
      )

  pub drain-Progress : (n : ℕ) (e : Episodes) → Progress e (drain n now is_admitted head_of e)
  unfolding drain
  drain-Progress zero e = Progress-none e
  drain-Progress (suc n) e = elim (Option-cases (pop e)) [
    | inl done ↦ rw (drain, done) (Progress-none e)
    | inr (((peer, group), popped), more) ↦
        let r = start now is_admitted head_of peer group popped in
        rw (drain, more)
          (Progress-both e (popped, []) (λ x. both r (λ e'. drain n now is_admitted head_of e'))
            (popped-Progress e popped (peer, group) more)
            (Progress-both popped r (λ e'. drain n now is_admitted head_of e')
              (start-Progress now is_admitted head_of peer group popped) (drain-Progress n r.0)))
  ]

  -- While there is room, starting a fetch puts nothing on the queue.
  start-deferred :
      (peer : PeerId) (group : GroupId) (e : Episodes)
      → length e.inflight < max_inflight
      → (start now is_admitted head_of peer group e).0.deferred ≡ e.deferred
  unfolding start fetch
  start-deferred peer group e room = ground arith

  pop-none : (e : Episodes) → pop e ≡ none → (max_inflight ≤ length e.inflight) ⊎ (e.deferred ≡ [])
  unfolding pop
  pop-none e h = elim (List-cases e.deferred) [
    | inl empty ↦ inr empty
    | inr (x, rest, queue) ↦ inl (ground (arith, queue))
  ]

  -- With fuel for every entry of the queue, draining ends with no free slot or with an empty queue.
  pub drain-finishes :
      (n : ℕ) (e : Episodes)
      → length e.deferred ≤ n
      → (max_inflight ≤ length (drain n now is_admitted head_of e).0.inflight)
        ⊎ ((drain n now is_admitted head_of e).0.deferred ≡ [])
  unfolding drain
  drain-finishes zero e h = elim (List-cases e.deferred) [
    | inl empty ↦ inr empty
    | inr (x, rest, queue) ↦ absurd (ground (arith, ap length queue))
  ]
  drain-finishes (suc n) e h = elim (Option-cases (pop e)) [
    | inl done ↦ rw (drain, done) (pop-none e done)
    | inr (((peer, group), popped), more) ↦
        let (room, queue, same) = pop-Progress e popped (peer, group) more in
        rw (drain, more)
          (drain-finishes n (start now is_admitted head_of peer group popped).0 (
            ground (
              arith,
              ap length queue,
              start-deferred peer group popped
                  (subst (λ m. length m < max_inflight) (sym same) room),
            )))
  ]
