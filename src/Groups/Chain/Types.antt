-- ===== src/Groups/Chain/Types.antt =====
-- crates/ac-groups/src/chain.rs: the entries of a chain, their encoding and the errors.
use p2parchiver.Common.{ℕ, ◌+◌, ltb, length}
use p2parchiver.Common.Bytes.{Bytes}
use p2parchiver.Common.Int.{ℤ}
use p2parchiver.Common.Result.{Result, ok, ◌>>=◌, ◌>>◌, fail_if, ok_or}
use p2parchiver.Platform.{Platform, Cbor}
use p2parchiver.Groups.Id.{GroupId, EntryHash, of_body}

abbrev pub max_entry_bytes : ℕ
max_entry_bytes = 4096

abbrev pub max_name_len : ℕ
max_name_len = 64

-- A peer is named in an entry by its text.
pub data Op : Type 0 where
  create : Bytes → Bytes → Bytes → Op
  add : Bytes → Op
  remove : Bytes → Op

pub record EntryBody : Type 0 where
  pub group : GroupId
  pub seq : ℕ
  pub prev : EntryHash
  pub at : ℤ
  pub op : Op

pub record Entry : Type 0 where
  pub body : Bytes
  pub signature : Bytes

pub data ChainError : Type 0 where
  malformed encode signing : ChainError
  too_large : ℕ → ℕ → ChainError
  no_genesis malformed_genesis : ChainError
  second_genesis : ℕ → ChainError
  out_of_order : ℕ → ℕ → ChainError
  broken_link : ℕ → ChainError
  wrong_group : ℕ → GroupId → ChainError
  admin_key : Bytes → ChainError
  bad_signature : ℕ → ChainError
  unparseable_peer unusable_peer : ℕ → Bytes → ChainError
  self_removal : ℕ → ChainError
  not_a_member : ℕ → Bytes → ChainError
  bad_name : ℕ → ChainError
  not_admin : ChainError

abbrev pub wire_len : Entry → ℕ
wire_len e = length e.body + length e.signature

module _ (X : Platform) (cbor : Cbor EntryBody) where
  -- `Entry::hash`
  abbrev pub hash : Entry → EntryHash
  hash e = of_body X e.body

  -- `Entry::body`
  abbrev pub decode : Entry → Result ChainError EntryBody
  decode e = ok_or (cbor.from_reader e.body) malformed

  -- `Entry::sign`
  unfoldable pub sign : X.Keypair → EntryBody → Result ChainError Entry
  sign key body = do
    bytes ← ok_or (cbor.into_writer body) encode
    signature ← ok_or (X.sign key bytes) signing
    let entry : Entry = record { body = bytes; signature = signature }
    fail_if (ltb max_entry_bytes (wire_len entry)) (too_large body.seq (wire_len entry))
    ok entry
