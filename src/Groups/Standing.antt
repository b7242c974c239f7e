-- ===== src/Groups/Standing.antt =====
-- crates/ac-groups/src/standing.rs: a member's signed word about itself, and the set that keeps the
-- latest word of each member. The proofs are in the modules below.
pub mod Order
pub mod Merge
pub mod Signing
use Prim.Native.Nat.{compare, Ordering}
use p2parchiver.Common.{
  ℕ, ◌+◌, ◌%◌, ◌^◌, Bool, true, false, not, Option, none, some, List, [], ltb, length,
  if◌then◌else◌,
}
use p2parchiver.Common.Bytes.{Bytes, bytes_eq, bytes_lt}
use p2parchiver.Common.Map
use p2parchiver.Common.Map.{Map}
use p2parchiver.Common.Int.{ℤ}
use p2parchiver.Common.Result.{Result, ok, err, ◌>>=◌, ◌>>◌, fail_if, ok_or}
use p2parchiver.Platform.{Platform, PeerId, Cbor}
use p2parchiver.Net.Identity.{public_key_of}
use p2parchiver.Net.Username.{normalise_username}
use p2parchiver.Groups.Id.{GroupId}

abbrev pub max_standing_bytes : ℕ
max_standing_bytes = 1024

pub data Position : Type 0 where
  unanswered «in» out : Position

-- `Position::tag`
abbrev pub tag : Position → ℕ
tag unanswered = 0
tag «in» = 1
tag out = 2

abbrev pub is_departure : Position → Bool
is_departure out = true
is_departure _ = false

pub record StandingBody : Type 0 where
  pub group : GroupId
  pub peer : Bytes
  pub seq : ℕ
  pub position : Position
  pub username : Bytes
  pub at : ℤ

pub record Standing : Type 0 where
  pub body : Bytes
  pub signature : Bytes

pub data StandingError : Type 0 where
  malformed encode signing : StandingError
  too_large : ℕ → StandingError
  unparseable_peer : StandingError
  subject_key : Bytes → StandingError
  bad_signature : StandingError
  wrong_group : GroupId → StandingError
  bad_username : StandingError

abbrev pub wire_len : Standing → ℕ
wire_len s = length s.body + length s.signature

abbrev pub or_zero : Option ℕ → ℕ
or_zero none = 0
or_zero (some n) = n

-- `Standing::next_seq`, on `u64`.
unfoldable pub next_seq : Option ℕ → ℕ
next_seq latest_known = (or_zero latest_known + 1) % 2 ^ 64

-- `map_err` to one error.
abbrev pub with_error {ℓ} : {E F A : Type ℓ} → F → Result E A → Result F A
with_error f (ok a) = ok a
with_error f (err e) = err f

module _ (X : Platform) (cbor : Cbor StandingBody) where
  -- `Standing::author`
  unfoldable pub author :
      X.Keypair → GroupId → ℕ → Position → Bytes → ℤ → Result StandingError Standing
  author key group seq position username at = do
    username' ← with_error bad_username (normalise_username X username)
    bytes ←
        ok_or
          (cbor.into_writer (record {
            group = group;
            peer = X.to_base58 (X.peer_of_key key);
            seq = seq;
            position = position;
            username = username';
            at = at;
          }))
          encode
    signature ← ok_or (X.sign key bytes) signing
    ok (record { body = bytes; signature = signature })

  -- `Standing::body`
  unfoldable pub decode : Standing → Result StandingError StandingBody
  decode s = ok_or (cbor.from_reader s.body) malformed

  -- `Standing::verify`
  unfoldable pub verify : Standing → GroupId → Result StandingError StandingBody
  unfolding decode
  verify s group = do
    fail_if (ltb max_standing_bytes (wire_len s)) (too_large (wire_len s))
    body ← decode s
    fail_if (not (bytes_eq body.group group)) (wrong_group body.group)
    peer ← ok_or (X.parse_peer_id body.peer) unparseable_peer
    key ← ok_or (public_key_of X peer) (subject_key body.peer)
    fail_if (not (X.verify key s.body s.signature)) bad_signature
    shaped ← with_error bad_username (normalise_username X body.username)
    ok body

  -- `Standing::subject`
  unfoldable pub subject : Standing → Result StandingError PeerId
  unfolding decode
  subject s = do body ← decode s; ok_or (X.parse_peer_id body.peer) unparseable_peer

-- The ordering rule: the higher seq, and on a tie the smaller body.
unfoldable pub wins : ℕ × Bytes → ℕ × Bytes → Bool
wins (n, a) (m, b) = elim (compare n m) [
  | Ordering.gt ↦ true
  | Ordering.lt ↦ false
  | Ordering.eq ↦ bytes_lt a b
]

pub record Held : Type 0 where
  pub standing : Standing
  pub seq : ℕ
  pub position : Position
  pub username : Bytes

abbrev pub StandingSet : Type 0
StandingSet = Map Held

-- What `wins` compares.
abbrev pub rank : Held → ℕ × Bytes
rank h = (h.seq, h.standing.body)

abbrev beats : Held → Option Held → Bool
beats h none = true
beats h (some old) = wins (rank h) (rank old)

-- `StandingSet::insert`, with the fields of the statement in one record.
unfoldable pub insert : PeerId → Held → StandingSet → StandingSet × Bool
insert peer h set =
    if beats h (Map.get peer set) then (Map.insert peer h set, true) else (set, false)

abbrev pub seq_position : Option Held → Option (ℕ × Position)
seq_position none = none
seq_position (some h) = some (h.seq, h.position)

abbrev pub latest : StandingSet → PeerId → Option (ℕ × Position)
latest set peer = seq_position (Map.get peer set)

abbrev pub name_of : Option Held → Option Bytes
name_of none = none
name_of (some h) = some h.username

-- `StandingSet::username`
abbrev pub username_of : StandingSet → PeerId → Option Bytes
username_of set peer = name_of (Map.get peer set)

abbrev held_departed : Option Held → Bool
held_departed none = false
held_departed (some h) = is_departure h.position

abbrev pub departed : StandingSet → PeerId → Bool
departed set peer = held_departed (Map.get peer set)
