-- ===== src/Groups/Chain/Rules.antt =====
-- What it means for an entry to follow a chain, read off chain.rs's `check_next` and
-- `check_genesis`, and for a whole chain to be valid.
use p2parchiver.Common.{
  ℕ, zero, suc, ◌≤◌, ◌<◌, ◌≡◌, subst, ◌≢◌, true, some, [], ◌∷◌, arith, length, get_elem?, take,
}
use p2parchiver.Common.Bytes.{Bytes, bytes_eq, bytes_eq_sound}
use p2parchiver.Common.Result.{ok}
use p2parchiver.Platform.{Platform, PeerId, Cbor}
use p2parchiver.Net.Identity.{public_key_of}
use p2parchiver.Groups.Id.{GroupId, zero_group, no_parent, of_genesis, of_body}
use p2parchiver.Groups.Members
use p2parchiver.Groups.Members.{Members, Member}
use p2parchiver.Groups.Chain.Types.{Entry, EntryBody, Op, max_entry_bytes, max_name_len, wire_len}
use p2parchiver.Groups.Chain.{
  Chain, Verified, len, head, fold, check_next, check_genesis, check_op, check_name,
  verify_signature, created, name,
}

module _ (X : Platform) where
  -- The key inside the peer id verifies the entry's signature over its exact bytes.
  abbrev pub SignedBy : PeerId → Entry → Type 0
  SignedBy peer e =
      (k : X.PublicKey) × (public_key_of X peer ≡ some k) × (X.verify k e.body e.signature ≡ true)

  -- The operations that may follow a chain.
  abbrev pub Allowed : Chain → Op → Type 0
  Allowed c (Op.create admin nonce name) = ⊥
  Allowed c (Op.add raw) =
      (p : PeerId) × (X.parse_peer_id raw ≡ some p)
      × (k : X.PublicKey) × (public_key_of X p ≡ some k)
  Allowed c (Op.remove raw) =
      (p : PeerId) × (X.parse_peer_id raw ≡ some p)
      × (p ≢ c.admin)
      × (Members.contains (fold X c) p ≡ true)

  -- A creation by this admin, under a usable name.
  abbrev pub Creates : PeerId → Op → Type 0
  Creates admin (Op.create raw nonce name) =
      (X.parse_peer_id raw ≡ some admin) × (0 < length name) × (length name ≤ max_name_len)
  Creates admin _ = ⊥

  abbrev admin_text : Op → Bytes
  admin_text (Op.create raw nonce name) = raw
  admin_text _ = []

  abbrev name_text : Op → Bytes
  name_text (Op.create raw nonce name) = name
  name_text _ = []

  created-texts :
      (op : Op) {p : Bytes × Bytes} → created X op ≡ ok p → p ≡ (admin_text op, name_text op)
  created-texts (Op.create raw nonce name) h = cc
  created-texts _ h = cc

  created-Creates :
      (op : Op) (admin : PeerId)
      → created X op ≡ ok (admin_text op, name_text op)
      → X.parse_peer_id (admin_text op) ≡ some admin
      → check_name X (name_text op) 0 ≡ ok tt
      → Creates admin op
  unfolding check_name
  created-Creates (Op.create raw nonce name) admin h p n = ground arith
  created-Creates _ admin h p n = cc

  check_op-Allowed : (c : Chain) (seq : ℕ) (op : Op) → check_op X c seq op ≡ ok tt → Allowed c op
  unfolding check_op
  check_op-Allowed c seq (Op.create admin nonce name) h = cc
  check_op-Allowed c seq (Op.add raw) h = ground arith
  check_op-Allowed c seq (Op.remove raw) h = ground arith

  verify_signature-SignedBy :
      (e : Entry) (admin : PeerId) (seq : ℕ)
      → verify_signature X e admin seq ≡ ok tt
      → SignedBy admin e
  unfolding verify_signature
  verify_signature-SignedBy e admin seq h = ground arith

module _ (X : Platform) (cbor : Cbor EntryBody) where
  -- The entry `v` may stand next after the chain `c`.
  pub record Follows (c : Chain) (v : Verified) : Type 0 where
    pub fits : wire_len v.entry ≤ max_entry_bytes
    pub decoded : cbor.from_reader v.entry.body ≡ some v.body
    pub at_end : v.body.seq ≡ len c
    pub same_group : v.body.group ≡ c.id
    pub linked : v.body.prev ≡ head c
    pub signed : SignedBy X c.admin v.entry
    pub allowed : Allowed X c v.body.op
    pub hashed : v.hash ≡ of_body X v.entry.body

  check_next-passes :
      (c : Chain) (e : Entry) (v : Verified)
      → check_next X cbor c e ≡ ok v
      → (v.entry ≡ e)
        × (wire_len e ≤ max_entry_bytes)
        × (cbor.from_reader e.body ≡ some v.body)
        × (v.body.seq ≡ len c)
        × (bytes_eq v.body.group c.id ≡ true)
        × (bytes_eq v.body.prev (head c) ≡ true)
        × (verify_signature X e c.admin v.body.seq ≡ ok tt)
        × (check_op X c v.body.seq v.body.op ≡ ok tt)
        × (v.hash ≡ of_body X e.body)
  unfolding check_next
  check_next-passes c e v h = ground arith

  -- An entry that `check_next` accepts follows the chain.
  pub check_next-Follows :
      (c : Chain) (e : Entry) (v : Verified)
      → check_next X cbor c e ≡ ok v
      → (v.entry ≡ e) × Follows c v
  check_next-Follows c e v h =
      let (same, fits, decoded, at_end, group, prev, signed, allowed, hashed) =
        check_next-passes c e v h in
      (
        same,
        record {
          fits = rw same fits;
          decoded = rw same decoded;
          at_end = at_end;
          same_group = bytes_eq_sound _ _ group;
          linked = bytes_eq_sound _ _ prev;
          signed = rw same (verify_signature-SignedBy X e c.admin v.body.seq signed);
          allowed = check_op-Allowed X c v.body.seq v.body.op allowed;
          hashed = rw same hashed;
        },
      )

  -- An entry may stand first in the chain of a group `id` under `admin`.
  pub record Founds (id : GroupId) (admin : PeerId) (v : Verified) : Type 0 where
    pub fits : wire_len v.entry ≤ max_entry_bytes
    pub decoded : cbor.from_reader v.entry.body ≡ some v.body
    pub first : v.body.seq ≡ 0
    pub no_group : v.body.group ≡ zero_group
    pub no_prev : v.body.prev ≡ no_parent
    pub creates : Creates X admin v.body.op
    pub signed : SignedBy X admin v.entry
    pub named : id ≡ of_genesis X v.entry.body
    pub hashed : v.hash ≡ of_body X v.entry.body

  -- Every entry keeps the rules against the entries before it.
  pub record IsValid (c : Chain) : Type 0 where
    pub founded : (v : Verified) → get_elem? c.entries 0 ≡ some v → Founds c.id c.admin v
    pub follows :
        (i : ℕ) (v : Verified)
        → 0 < i
        → get_elem? c.entries i ≡ some v
        → Follows (record c { entries = take i c.entries }) v
    pub nonempty : 0 < len c

  no_second : (v w : Verified) (i : ℕ) → 0 < i → get_elem? (v ∷ []) i ≡ some w → ⊥
  no_second v w zero h e = elim h [ ]
  no_second v w (suc i) h e = cc

  check_genesis-passes :
      (e : Entry) (id : Bytes) (admin : PeerId) (v : Verified)
      → check_genesis X cbor e ≡ ok (id, admin, v)
      → (v.entry ≡ e)
        × (wire_len e ≤ max_entry_bytes)
        × (cbor.from_reader e.body ≡ some v.body)
        × (v.body.seq ≡ 0)
        × (bytes_eq v.body.group zero_group ≡ true)
        × (bytes_eq v.body.prev no_parent ≡ true)
        × (created X v.body.op ≡ ok (admin_text X v.body.op, name_text X v.body.op))
        × (X.parse_peer_id (admin_text X v.body.op) ≡ some admin)
        × (check_name X (name_text X v.body.op) 0 ≡ ok tt)
        × (verify_signature X e admin 0 ≡ ok tt)
        × (id ≡ of_genesis X e.body)
        × (v.hash ≡ of_body X e.body)
  unfolding check_genesis
  check_genesis-passes e id admin v h = ground (arith, created-texts X v.body.op)

  -- A genesis that `check_genesis` accepts founds the chain that holds it alone.
  pub check_genesis-IsValid :
      (e : Entry) (id : Bytes) (admin : PeerId) (v : Verified)
      → check_genesis X cbor e ≡ ok (id, admin, v)
      → (v.entry ≡ e) × IsValid (record { id = id; admin = admin; entries = v ∷ [] })
  check_genesis-IsValid e id admin v h =
      let (same, fits, decoded, first, group, prev, made, parsed, name, signed, named, hashed) =
        check_genesis-passes e id admin v h in
      (
        same,
        record {
          founded = λ w at. subst (Founds id admin) {x = v} {y = w} (ground arith) (record {
            fits = rw same fits;
            decoded = rw same decoded;
            first = first;
            no_group = bytes_eq_sound _ _ group;
            no_prev = bytes_eq_sound _ _ prev;
            creates = created-Creates X v.body.op admin made parsed name;
            signed = rw same (verify_signature-SignedBy X e admin 0 signed);
            named = rw same named;
            hashed = rw same hashed;
          });
          follows = λ i w later at. absurd (no_second v w i later at);
          nonempty = omega arith;
        },
      )
