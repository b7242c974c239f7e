-- ===== src/Groups/Chain/Departure.antt =====
-- Who has left: `Chain::departure_seq` of chain.rs against the membership.
use p2parchiver.Common.{
  ℕ, zero, suc, ◌+◌, ◌≡◌, refl, ap, ◌∙◌, ◌⊎◌, inl, inr, Bool, true, false, ◌||◌, Option, none, some,
  List, [], ◌∷◌, ◌++◌, arith, ◌==◌, ==_iff, Bool-cases, length, get_elem?, any_of,
}
use p2parchiver.Common.Bytes.{Bytes, bytes_eq, bytes_eq_sound, bytes_eq_refl}
use p2parchiver.Platform.{Platform, PeerId, Cbor}
use p2parchiver.Groups.Members
use p2parchiver.Groups.Members.{Members, Member}
use p2parchiver.Groups.Chain.Types.{EntryBody, Op}
use p2parchiver.Groups.Chain.{
  Chain, Verified, fold, fold_from, apply_op, departure_seq, departure_from, departure_op, name,
}
use p2parchiver.Platform.{PeerText}
use p2parchiver.Groups.Chain.Rules.{IsValid, Creates, Allowed}
use p2parchiver.Groups.Chain.Induction.{valid_induction}
use p2parchiver.Groups.Chain.Membership.{fold_from-snoc, contains-insert, contains-remove}

-- The operation makes the peer with this text a member.
abbrev pub admits_op : Bytes → Op → Bool
admits_op wanted (Op.create raw nonce name) = bytes_eq raw wanted
admits_op wanted (Op.add raw) = bytes_eq raw wanted
admits_op wanted (Op.remove raw) = false

abbrev pub admits : Bytes → Verified → Bool
admits wanted v = admits_op wanted v.body.op

module _ (X : Platform) where
  departure_from-snoc :
      (wanted : Bytes) (n : ℕ) (r : Option ℕ) (us : List Verified) (v : Verified)
      → departure_from X wanted n r (us ++ v ∷ [])
        ≡ departure_op X wanted (n + length us) (departure_from X wanted n r us) v.body.op
  unfolding departure_from
  departure_from-snoc wanted n r [] v = ap (λ k. departure_op X wanted k r v.body.op) (omega arith)
  departure_from-snoc wanted n r (u ∷ us) v =
      departure_from-snoc wanted (suc n) (departure_op X wanted n r u.body.op) us v
      ∙ ap
          (λ k.
            departure_op X wanted k
              (departure_from X wanted (suc n) (departure_op X wanted n r u.body.op) us) v.body.op)
          (omega arith)

module _ (X : Platform) where
  departure-snoc :
      (wanted : Bytes) (us : List Verified) (v : Verified)
      → departure_from X wanted 0 none (us ++ v ∷ [])
        ≡ departure_op X wanted (length us) (departure_from X wanted 0 none us) v.body.op
  departure-snoc wanted us v =
      departure_from-snoc X wanted 0 none us v
      ∙ ap (λ k. departure_op X wanted k (departure_from X wanted 0 none us) v.body.op)
          (omega arith)

any_of-snoc {ℓ} :
    {A : Type ℓ} (p : A → Bool) (us : List A) (v : A)
    → any_of p (us ++ v ∷ []) ≡ (any_of p us || p v)
any_of-snoc p [] v = ground arith
any_of-snoc p (u ∷ us) v = ground (arith, any_of-snoc p us v)

get_elem?-append {ℓ} :
    {A : Type ℓ} (us vs : List A) (i : ℕ) {v : A}
    → get_elem? us i ≡ some v
    → get_elem? (us ++ vs) i ≡ some v
get_elem?-append [] vs i h = cc
get_elem?-append (u ∷ us) vs zero h = h
get_elem?-append (u ∷ us) vs (suc i) h = get_elem?-append us vs i h

get_elem?-last {ℓ} :
    {A : Type ℓ} (us : List A) (v : A) → get_elem? (us ++ v ∷ []) (length us) ≡ some v
get_elem?-last [] v = refl
get_elem?-last (u ∷ us) v = get_elem?-last us v

module _ (X : Platform) (text : PeerText X) where
  -- A text that parses is the wanted one exactly when it parses to the wanted peer.
  names :
      (raw : Bytes) (q p : PeerId)
      → X.parse_peer_id raw ≡ some q
      → bytes_eq raw (X.to_base58 p) ≡ (q == p)
  names raw q p h = elim (Bool-cases (bytes_eq raw (X.to_base58 p))) [
    | inl e ↦
        let same : raw ≡ X.to_base58 p = bytes_eq_sound _ _ e in
        let parsed : X.parse_peer_id raw ≡ some p = rw same (text.parse-base58 p) in
        rw e (ground arith)
    | inr ne ↦ elim (Bool-cases (q == p)) [
      | inl e ↦
          let same : X.to_base58 q ≡ raw = text.base58-parse raw q h in
          let eq : q ≡ p = (==_iff q p).0 e in
          let hit : bytes_eq raw (X.to_base58 p) ≡ true = rw (← eq, same) (bytes_eq_refl raw) in
          cc hit
      | inr miss ↦ rw (ne, miss)
    ]
  ]

  -- The three places of a peer: member; departed, with the entry that removed it; never admitted.
  abbrev pub IsMember : List Verified → PeerId → Type 0
  IsMember us p =
      (Members.contains (fold_from X [] us) p ≡ true)
      × (departure_from X (X.to_base58 p) 0 none us ≡ none)

  abbrev pub HasLeft : List Verified → PeerId → Type 0
  HasLeft us p =
      (Members.contains (fold_from X [] us) p ≡ false)
      × (s : ℕ) × (departure_from X (X.to_base58 p) 0 none us ≡ some s)
      × (v : Verified) × (get_elem? us s ≡ some v)
      × (v.body.op ≡ Op.remove (X.to_base58 p))

  abbrev pub IsStranger : List Verified → PeerId → Type 0
  IsStranger us p =
      (Members.contains (fold_from X [] us) p ≡ false)
      × (departure_from X (X.to_base58 p) 0 none us ≡ none)
      × (any_of (admits (X.to_base58 p)) us ≡ false)

  abbrev pub Placed : List Verified → PeerId → Type 0
  Placed us p = IsMember us p ⊎ HasLeft us p ⊎ IsStranger us p

  unmoved :
      (us : List Verified) (v : Verified) (p : PeerId)
      → Members.contains (apply_op X (fold_from X [] us) v.body.op) p
        ≡ Members.contains (fold_from X [] us) p
      → departure_op X
          (X.to_base58 p)
          (length us)
          (departure_from X (X.to_base58 p) 0 none us)
          v.body.op
        ≡ departure_from X (X.to_base58 p) 0 none us
      → admits (X.to_base58 p) v ≡ false
      → Placed us p
      → Placed (us ++ v ∷ []) p
  unmoved us v p members dep new placed =
      let members' = ap (λ m. Members.contains m p) (fold_from-snoc X [] us v) ∙ members in
      let dep' = departure-snoc X (X.to_base58 p) us v ∙ dep in
      let new' = any_of-snoc (admits (X.to_base58 p)) us v in
      elim placed [
        | inl (here, none_yet) ↦ inl (members' ∙ here, dep' ∙ none_yet)
        | inr (inl (gone, s, left, w, at, removes)) ↦
            inr
              (inl (members' ∙ gone, s, dep' ∙ left, w, get_elem?-append us (v ∷ []) s at, removes))
        | inr (inr (out, none_yet, never)) ↦
            inr (inr (members' ∙ out, dep' ∙ none_yet, rw (new', never) new))
      ]

  Placed-add :
      (us : List Verified) (v : Verified) (raw : Bytes) (q p : PeerId)
      → v.body.op ≡ Op.add raw
      → X.parse_peer_id raw ≡ some q
      → Placed us p
      → Placed (us ++ v ∷ []) p
  unfolding apply_op
  Placed-add us v raw q p op parsed placed =
      let same = names raw q p parsed in
      let inserted = contains-insert X q p false (fold_from X [] us) in
      elim (Bool-cases (q == p)) [
        | inl hit ↦ inl (
          rw (fold_from-snoc X [] us v, op, parsed) (rw inserted (rw hit)),
          rw (departure-snoc X (X.to_base58 p) us v, op, same, hit) refl,
        )
        | inr miss ↦
            unmoved us v p (rw (op, parsed) (rw inserted (rw miss))) (rw (op, same, miss) refl)
              (rw (op, same, miss) refl) placed
      ]

  Placed-remove :
      (us : List Verified) (v : Verified) (raw : Bytes) (q p : PeerId)
      → v.body.op ≡ Op.remove raw
      → X.parse_peer_id raw ≡ some q
      → Placed us p
      → Placed (us ++ v ∷ []) p
  unfolding apply_op
  Placed-remove us v raw q p op parsed placed =
      let same = names raw q p parsed in
      let removed = contains-remove X q p (fold_from X [] us) in
      elim (Bool-cases (q == p)) [
        | inl hit ↦ inr (
            inl (
              rw (fold_from-snoc X [] us v, op, parsed) (rw removed (rw hit)),
              length us,
              rw (departure-snoc X (X.to_base58 p) us v, op, same, hit) refl,
              v,
              get_elem?-last us v,
              op ∙ ap Op.remove (bytes_eq_sound raw (X.to_base58 p) (same ∙ hit)),
            ))
        | inr miss ↦
            unmoved us v p (rw (op, parsed) (rw removed (rw miss))) (rw (op, same, miss) refl)
              (rw op) placed
      ]

  Placed-first :
      (v : Verified) (raw nonce name : Bytes) (q p : PeerId)
      → v.body.op ≡ Op.create raw nonce name
      → X.parse_peer_id raw ≡ some q
      → Placed (v ∷ []) p
  unfolding apply_op fold_from departure_from
  Placed-first v raw nonce name q p op parsed =
      let same = names raw q p parsed in
      let inserted = contains-insert X q p true [] in
      elim (Bool-cases (q == p)) [
        | inl hit ↦ inl (rw (op, parsed) (rw inserted (rw hit)), rw (op, same, hit) refl)
        | inr miss ↦ inr (
            inr (
              rw (op, parsed) (rw inserted (rw miss)),
              rw (op, same, miss) refl,
              rw (op, same, miss) refl,
            ))
      ]

module _ (X : Platform) (cbor : Cbor EntryBody) (text : PeerText X) where
  Placed-base :
      (admin p : PeerId) (v : Verified) (op : Op)
      → v.body.op ≡ op
      → Creates X admin op
      → Placed X text (v ∷ []) p
  Placed-base admin p v (Op.create raw nonce name) e h =
      Placed-first X text v raw nonce name admin p e h.0
  Placed-base admin p v _ e h = absurd h

  Placed-step :
      (c : Chain) (p : PeerId) (v : Verified) (op : Op)
      → v.body.op ≡ op
      → Allowed X c op
      → Placed X text c.entries p
      → Placed X text (c.entries ++ v ∷ []) p
  Placed-step c p v (Op.create raw nonce name) e h placed = absurd h
  Placed-step c p v (Op.add raw) e h placed = Placed-add X text c.entries v raw h.0 p e h.1 placed
  Placed-step c p v (Op.remove raw) e h placed =
      Placed-remove X text c.entries v raw h.0 p e h.1 placed

  -- In a valid chain every peer is in one of three places: a member, and then `departure_seq` has
  -- no answer; gone, and then `departure_seq` names the entry that removed it; or never admitted,
  -- and then `departure_seq` has no answer either.
  pub departure_places :
      (c : Chain) (p : PeerId)
      → IsValid X cbor c
      → ((Members.contains (fold X c) p ≡ true) × (departure_seq X c p ≡ none))
        ⊎ ((Members.contains (fold X c) p ≡ false)
            × (s : ℕ) × (departure_seq X c p ≡ some s)
            × (v : Verified) × (get_elem? c.entries s ≡ some v)
            × (v.body.op ≡ Op.remove (X.to_base58 p)))
        ⊎ ((Members.contains (fold X c) p ≡ false)
            × (departure_seq X c p ≡ none)
            × (any_of (admits (X.to_base58 p)) c.entries ≡ false))
  unfolding fold departure_seq
  departure_places c p valid =
      valid_induction X cbor c valid (λ us. Placed X text us p)
        (λ v f. Placed-base c.admin p v v.body.op refl f.creates)
        (λ us v f ih. Placed-step (record c { entries = us }) p v v.body.op refl f.allowed ih)
