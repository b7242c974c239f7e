-- ===== src/Platform.antt =====
-- What the crates take from libp2p, sha2 and ciborium, as parameters: keys and signatures, the text
-- and byte forms of a peer id, the hash, CBOR, and the Unicode operations on text.
-- A `PeerId` is a number: ids are copied, compared and ordered, and read through the operations
-- here. Its order is that of `PeerId`'s own `Ord`.
use p2parchiver.Common.{ℕ, Bool, true, false, ◌&&◌, ◌||◌, ltb, leb, any_of, Option, some, ◌≡◌, ◌++◌}
use p2parchiver.Common.Bytes.{Bytes}

abbrev pub PeerId : Type 0
PeerId = ℕ

pub record Platform : Type 1 where
  pub Keypair : Type 0
  pub PublicKey : Type 0
  -- `key.public().to_peer_id()`
  pub peer_of_key : Keypair → PeerId
  -- `key.sign`, which can fail
  pub sign : Keypair → Bytes → Option Bytes
  pub verify : PublicKey → Bytes → Bytes → Bool
  -- the multihash under a peer id
  pub multihash_code : PeerId → ℕ
  pub multihash_digest : PeerId → Bytes
  pub try_decode_protobuf : Bytes → Option PublicKey
  -- `raw.parse::<PeerId>()`, `peer.to_base58()` and `peer.to_bytes()`
  pub parse_peer_id : Bytes → Option PeerId
  pub to_base58 : PeerId → Bytes
  pub to_bytes : PeerId → Bytes
  pub sha256 : Bytes → Bytes
  pub trim : Bytes → Bytes
  pub to_lowercase : Bytes → Bytes

-- `ciborium::into_writer` and `ciborium::from_reader` at one type.
pub record Cbor (A : Type 0) : Type 0 where
  pub into_writer : A → Option Bytes
  pub from_reader : Bytes → Option A

-- The text of a peer id and its parse undo one another: a peer id has one text.
pub record PeerText (X : Platform) : Type 0 where
  pub parse-base58 : (p : PeerId) → X.parse_peer_id (X.to_base58 p) ≡ some p
  pub base58-parse : (raw : Bytes) (p : PeerId) → X.parse_peer_id raw ≡ some p → X.to_base58 p ≡ raw

-- A key signs what the public key inside its own peer id verifies.
pub record SigningLaws (X : Platform) : Type 0 where
  pub own_code : (k : X.Keypair) → X.multihash_code (X.peer_of_key k) ≡ 0
  pub own_key :
      (k : X.Keypair)
      → (pk : X.PublicKey) × (X.try_decode_protobuf (X.multihash_digest (X.peer_of_key k))
          ≡ some pk)
        × ((bytes signature : Bytes)
            → X.sign k bytes ≡ some signature
            → X.verify pk bytes signature ≡ true)

-- What `into_writer` wrote, `from_reader` reads back.
abbrev pub RoundTrips : {A : Type 0} → Cbor A → Type 0
RoundTrips {A} cbor =
    (a : A) (bytes : Bytes) → cbor.into_writer a ≡ some bytes → cbor.from_reader bytes ≡ some a

-- `str::trim` takes bytes away at both ends.
pub record TrimLaws (X : Platform) : Type 0 where
  pub part-trim : (s : Bytes) → (a : Bytes) × (b : Bytes) × (s ≡ a ++ (X.trim s ++ b))

-- An ASCII capital letter.
abbrev pub is_capital : ℕ → Bool
is_capital b = leb 65 b && leb b 90

-- `str::to_lowercase` leaves no ASCII capital and ASCII text without one as it is, and `str::trim`
-- leaves printable ASCII text without a space as it is.
pub record CaseLaws (X : Platform) : Type 0 where
  pub no_capital : (s : Bytes) → any_of is_capital (X.to_lowercase s) ≡ false
  pub lower_again :
      (s : Bytes) → any_of (λ b. is_capital b || leb 128 b) s ≡ false → X.to_lowercase s ≡ s
  pub trim_again : (s : Bytes) → any_of (λ b. ltb b 33 || leb 127 b) s ≡ false → X.trim s ≡ s
