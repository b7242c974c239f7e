-- ===== src/Net/Identity.antt =====
-- crates/ac-net/src/identity.rs: the public key inside a peer id.
use p2parchiver.Common.{◌≡◌, true, not, Option, none, some, ◌==◌, if◌then◌else◌}
use p2parchiver.Common.Bytes.{Bytes}
use p2parchiver.Platform.{Platform, PeerId}
use p2parchiver.Platform.{SigningLaws}

module _ (X : Platform) where
  unfoldable pub public_key_of : PeerId → Option X.PublicKey
  public_key_of peer =
      if not (X.multihash_code peer == 0)
      then none
      else X.try_decode_protobuf (X.multihash_digest peer)

-- The key inside a key's own peer id verifies what the key signs.
pub own_public_key :
    (X : Platform)
    → SigningLaws X
    → (key : X.Keypair)
    → (pk : X.PublicKey) × (public_key_of X (X.peer_of_key key) ≡ some pk)
      × ((bytes signature : Bytes)
          → X.sign key bytes ≡ some signature
          → X.verify pk bytes signature ≡ true)
unfolding public_key_of
own_public_key X keys key =
    let (pk, decoded, verifies) = keys.own_key key in (pk, rw (keys.own_code key) decoded, verifies)
