-- ===== src/Tests/Toy.antt =====
-- A platform and encodings that compute, for tests: the number of a key is that of its peer, a
-- signature is the key before the signed bytes, and the hash is a polynomial.
use p2parchiver.Common.{
  ℕ, zero, suc, ◌+◌, ◌*◌, ◌%◌, ◌≡◌, refl, sym, ap, ◌∙◌, Option, none, some, [], ◌∷◌, ◌++◌,
  append-nil, arith, ◌==◌, if◌then◌else◌, length, take, drop, map, any_of, false, ◌||◌, leb,
}
use p2parchiver.Common.Bytes.{Bytes, bytes_eq, bytes_eq_refl, bytes_eq_iff}
use p2parchiver.Common.Int.{ℤ, pos, negsuc, pos_part, neg_part}
use p2parchiver.Platform.{Platform, PeerId, Cbor}
use p2parchiver.Platform.{is_capital, CaseLaws, TrimLaws, PeerText, SigningLaws, RoundTrips}
use mathlib.Core.Option.{some-injective}
use p2parchiver.Groups.Chain.Types.{EntryBody, Op}
use p2parchiver.Net.Attest.{Statement}
use p2parchiver.Groups.Standing.{StandingBody, Position, unanswered, «in», out, tag}

abbrev pub parse_one : Bytes → Option PeerId
parse_one (p ∷ []) = some p
parse_one _ = none

abbrev toy_hash : ℕ → Bytes → ℕ
toy_hash h [] = h
toy_hash h (b ∷ bs) = toy_hash ((h * 31 + b) % 1000003) bs

abbrev lower_byte : ℕ → ℕ
lower_byte b = if is_capital b then b + 32 else b

abbrev pub toy : Platform
toy = record {
  Keypair = ℕ;
  PublicKey = ℕ;
  peer_of_key = λ k. k;
  sign = λ k bytes. some (k ∷ bytes);
  verify = λ k bytes signature. bytes_eq signature (k ∷ bytes);
  multihash_code = λ p. 0;
  multihash_digest = λ p. p ∷ [];
  try_decode_protobuf = parse_one;
  parse_peer_id = parse_one;
  to_base58 = λ p. p ∷ [];
  to_bytes = λ p. p ∷ [];
  sha256 = λ bytes. toy_hash 17 bytes ∷ [];
  trim = λ bytes. bytes;
  to_lowercase = map lower_byte;
}

parse_one-text : (raw : Bytes) (p : PeerId) → parse_one raw ≡ some p → p ∷ [] ≡ raw
parse_one-text [] p h = cc
parse_one-text (q ∷ []) p h = cc
parse_one-text (q ∷ r ∷ rest) p h = cc

pub toy_text : PeerText toy
toy_text = record { parse-base58 = λ p. refl; base58-parse = parse_one-text }

pub toy_trim : TrimLaws toy
toy_trim = record { part-trim = λ s. ([], [], sym (append-nil s)) }

lower-no_capital : (s : Bytes) → any_of is_capital (map lower_byte s) ≡ false
lower-no_capital [] = refl
lower-no_capital (b ∷ s) = ground (arith, lower-no_capital s)

lower-again : (s : Bytes) → any_of (λ b. is_capital b || leb 128 b) s ≡ false → map lower_byte s ≡ s
lower-again [] h = refl
lower-again (b ∷ s) h =
    let small : is_capital b ≡ false = ground (arith, h) in
    let rest = lower-again s (ground (arith, h)) in
    ap (λ c. (if c then b + 32 else b) ∷ map lower_byte s) small ∙ ap (λ t. b ∷ t) rest

pub toy_cases : CaseLaws toy
toy_cases = record {
  no_capital = lower-no_capital;
  lower_again = lower-again;
  trim_again = λ s h. refl;
}

-- A field is its length, then its bytes.
abbrev put : Bytes → Bytes → Bytes
put b rest = length b ∷ (b ++ rest)

abbrev field : Bytes → Option (Bytes × Bytes)
field [] = none
field (n ∷ rest) = some (take n rest, drop n rest)

abbrev then_field {ℓ} :
    {A : Type ℓ} → Option (Bytes × Bytes) → (Bytes → Bytes → Option A) → Option A
then_field none k = none
then_field (some (b, rest)) k = k b rest

abbrev op_fields : Op → Bytes → Bytes
op_fields (Op.create a b c) rest = 0 ∷ put a (put b (put c rest))
op_fields (Op.add a) rest = 1 ∷ put a rest
op_fields (Op.remove a) rest = 2 ∷ put a rest

abbrev read_op : Bytes → Option Op
read_op [] = none
read_op (t ∷ rest) =
    if t == 0
    then then_field (field rest)
        (λ a r. then_field (field r) (λ b s. then_field (field s) (λ c _. some (Op.create a b c))))
    else if t == 1
    then then_field (field rest) (λ a _. some (Op.add a))
    else then_field (field rest) (λ a _. some (Op.remove a))

abbrev to_int : ℕ → ℕ → ℤ
to_int p zero = pos p
to_int p (suc n) = negsuc n

abbrev read_entry : Bytes → Option EntryBody
read_entry (seq ∷ p ∷ n ∷ rest) = then_field (field rest) (λ group r.
    then_field (field r) (λ prev s. elim (read_op s) [
      | none ↦ none
      | some op ↦ some (record { group = group; seq = seq; prev = prev; at = to_int p n; op = op })
    ]))
read_entry _ = none

abbrev pub write_entry : EntryBody → Bytes
write_entry b = b.seq ∷ pos_part b.at ∷ neg_part b.at ∷ put b.group (put b.prev (op_fields b.op []))

abbrev pub entry_cbor : Cbor EntryBody
entry_cbor = record { into_writer = λ b. some (write_entry b); from_reader = read_entry }

abbrev read_position : ℕ → Position
read_position zero = unanswered
read_position (suc zero) = «in»
read_position (suc (suc n)) = out

abbrev read_standing : Bytes → Option StandingBody
read_standing (seq ∷ p ∷ n ∷ t ∷ rest) = then_field (field rest) (λ group r.
    then_field (field r) (λ peer s. then_field (field s) (λ username _. some (record {
      group = group;
      peer = peer;
      seq = seq;
      position = read_position t;
      username = username;
      at = to_int p n;
    }))))
read_standing _ = none

abbrev pub write_standing : StandingBody → Bytes
write_standing b =
    b.seq
    ∷ pos_part b.at
    ∷ neg_part b.at
    ∷ tag b.position
    ∷ put b.group (put b.peer (put b.username []))

abbrev pub standing_cbor : Cbor StandingBody
standing_cbor = record { into_writer = λ b. some (write_standing b); from_reader = read_standing }

pub toy_keys : SigningLaws toy
toy_keys = record {
  own_code = λ k. refl;
  own_key = λ k. (
    k,
    refl,
    λ bytes signature h.
        ground (arith, bytes_eq_refl (k ∷ bytes), bytes_eq_iff signature (k ∷ bytes)),
  );
}

take_front : (b rest : Bytes) → take (length b) (b ++ rest) ≡ b
take_front [] rest = refl
take_front (x ∷ b) rest = ap (λ y. x ∷ y) (take_front b rest)

drop_front : (b rest : Bytes) → drop (length b) (b ++ rest) ≡ rest
drop_front [] rest = refl
drop_front (x ∷ b) rest = drop_front b rest

field-put : (b rest : Bytes) → field (put b rest) ≡ some (b, rest)
field-put b rest = rw (take_front b rest, drop_front b rest) refl

read_position-tag : (p : Position) → read_position (tag p) ≡ p
read_position-tag unanswered = refl
read_position-tag «in» = refl
read_position-tag out = refl

to_int-parts : (a : ℤ) → to_int (pos_part a) (neg_part a) ≡ a
to_int-parts (pos n) = refl
to_int-parts (negsuc n) = refl

read_standing-write : (b : StandingBody) → read_standing (write_standing b) ≡ some b
read_standing-write b =
    rw
      (
        take_front b.group (put b.peer (put b.username [])),
        drop_front b.group (put b.peer (put b.username [])),
        take_front b.peer (put b.username []),
        drop_front b.peer (put b.username []),
        take_front b.username [],
        read_position-tag b.position,
        to_int-parts b.at,
      )
      refl

pub standing_cbor-RoundTrips : RoundTrips standing_cbor
standing_cbor-RoundTrips b bytes h =
    ap read_standing (sym (some-injective _ _ h)) ∙ read_standing-write b

abbrev read_statement : Bytes → Option Statement
read_statement (p ∷ n ∷ q ∷ m ∷ rest) = then_field (field rest) (λ peer r.
    then_field (field r) (λ username s. then_field (field s) (λ server _. some (record {
      peer = peer;
      username = username;
      server = server;
      issued_at = to_int p n;
      expires_at = to_int q m;
    }))))
read_statement _ = none

abbrev pub write_statement : Statement → Bytes
write_statement b =
    pos_part b.issued_at
    ∷ neg_part b.issued_at
    ∷ pos_part b.expires_at
    ∷ neg_part b.expires_at
    ∷ put b.peer (put b.username (put b.server []))

abbrev pub statement_cbor : Cbor Statement
statement_cbor = record {
  into_writer = λ b. some (write_statement b);
  from_reader = read_statement;
}

read_statement-write : (b : Statement) → read_statement (write_statement b) ≡ some b
read_statement-write b =
    rw
      (
        take_front b.peer (put b.username (put b.server [])),
        drop_front b.peer (put b.username (put b.server [])),
        take_front b.username (put b.server []),
        drop_front b.username (put b.server []),
        take_front b.server [],
        to_int-parts b.issued_at,
        to_int-parts b.expires_at,
      )
      refl

pub statement_cbor-RoundTrips : RoundTrips statement_cbor
statement_cbor-RoundTrips b bytes h =
    ap read_statement (sym (some-injective _ _ h)) ∙ read_statement-write b
