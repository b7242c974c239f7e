-- ===== src/Groups/Sync/Wire.antt =====
-- The messages between nodes (crates/ac-groups/src/wire.rs), and what the sync uses of the store: the
-- types and the operations of crates/ac-groups/src/store.rs, as an interface.
use p2parchiver.Common.{ℕ, Bool, Option, List}
use p2parchiver.Common.Bytes.{Bytes}
use p2parchiver.Common.Result.{Result}
use p2parchiver.Common.Int.{ℤ}
use p2parchiver.Platform.{Platform, PeerId}
use p2parchiver.Groups.Id.{GroupId, EntryHash}
use p2parchiver.Groups.Chain.Types.{Entry, Op, ChainError}
use p2parchiver.Groups.Standing.{Standing, StandingError, Position}
use p2parchiver.Groups.Members.{Members}

abbrev pub max_heads_per_answer : ℕ
max_heads_per_answer = 128

pub record GroupHead : Type 0 where
  pub group : GroupId
  pub head_seq : ℕ
  pub head_hash : EntryHash
  pub standings : Bytes

pub data GroupRequest : Type 0 where
  ask : GroupRequest
  fetch : GroupId → ℕ → GroupRequest

pub data GroupResponse : Type 0 where
  heads : List GroupHead → GroupResponse
  entries : GroupId → ℕ → List Entry → List Standing → GroupResponse
  unavailable : GroupResponse

pub data GroupAction : Type 0 where
  fetch : PeerId → GroupId → ℕ → GroupAction

pub data State : Type 0 where
  pending active left : State

pub record GroupRow : Type 0 where
  pub id : GroupId
  pub name : Bytes
  pub admin : PeerId
  pub state : State
  pub head_seq : ℕ
  pub head_hash : EntryHash
  pub standings_digest : Bytes
  pub first_seen : ℤ
  pub last_synced : ℤ

pub record Applied : Type 0 where
  pub accepted : ℕ
  pub head_seq : ℕ
  pub added : List PeerId
  pub removed : List PeerId
  pub we_joined : Bool
  pub we_lost : Bool
  pub departed : List PeerId

pub record Served : Type 0 where
  pub entries : List Entry
  pub standings : List Standing

pub data StoreError : Type 0 where
  db corrupt_row entropy : StoreError
  chain : ChainError → StoreError
  standing : StandingError → StoreError
  unknown_group duplicate raced : GroupId → StoreError
  gap : ℕ → ℕ → StoreError
  diverged : GroupId → ℕ → StoreError

-- The methods of `Groups` that the sync calls. One that changes the store returns the new store.
pub record StoreOps (X : Platform) : Type 1 where
  pub Store : Type 0
  pub get : Store → GroupId → Result StoreError (Option GroupRow)
  pub list : Store → Result StoreError (List GroupRow)
  pub members : Store → GroupId → Result StoreError Members
  pub log_shared_with : Store → PeerId → Result StoreError (List GroupHead)
  pub serve : Store → GroupId → PeerId → ℕ → Result StoreError (Option Served)
  pub my_standing_seq : Store → GroupId → Result StoreError (Option ℕ)
  pub put : Store → GroupId → ℕ → List Entry → List Standing → ℤ → Store × Result StoreError Applied
  pub adopt : Store → List Entry → List Standing → ℤ → Store × Result StoreError Applied
  pub author : Store → X.Keypair → GroupId → Op → ℤ → Store × Result StoreError Entry
  pub author_standing :
      Store → X.Keypair → GroupId → Position → Bytes → ℤ → Store × Result StoreError Standing
  pub forget : Store → GroupId → Store × Result StoreError (Unit {0})
