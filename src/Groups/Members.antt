-- ===== src/Groups/Members.antt =====
-- crates/ac-groups/src/members.rs: the membership that a chain folds to, in peer-id order.
pub mod Digest
use p2parchiver.Common.{
  ℕ, ◌/◌, ◌%◌, zero, suc, Bool, true, false, Option, none, some, List, [], ◌∷◌, ◌++◌, map, length,
  if◌then◌else◌, is_some,
}
use p2parchiver.Common.Bytes.{Bytes}
use p2parchiver.Common.Map
use p2parchiver.Common.Map.{Map}
use p2parchiver.Platform.{Platform, PeerId}
use p2parchiver.Groups.Standing.{StandingSet, Held, Position, tag, username_of}

pub record Member : Type 0 where
  pub peer : PeerId
  pub username : Option Bytes
  pub is_admin : Bool

abbrev pub Members : Type 0
Members = Map Member

-- `entry(peer).or_insert(..)`: a member already there stays as it is.
unfoldable pub insert : PeerId → Bool → Members → Members
insert peer is_admin m =
    if Map.contains peer m
    then m
    else Map.insert peer (record { peer = peer; username = none; is_admin = is_admin }) m

unfoldable pub set_username : PeerId → Option Bytes → Members → Members
set_username peer username m = Map.modify peer (λ member. record member { username = username }) m

-- `Members::name_from`: each member takes the name in its own standing, or none.
unfoldable pub name_from : StandingSet → Members → Members
name_from standings [] = []
name_from standings ((p, member) ∷ m) =
    (p, record member { username = username_of standings member.peer }) ∷ name_from standings m

-- `Members::remove`, with whether the peer was there.
unfoldable pub remove : PeerId → Members → Members × Bool
remove peer m = (Map.remove peer m, Map.contains peer m)

abbrev pub contains : Members → PeerId → Bool
contains m peer = Map.contains peer m

-- `u64::to_le_bytes`: eight bytes, the lowest first.
abbrev pub le_bytes : ℕ → ℕ → Bytes
le_bytes zero n = []
le_bytes (suc k) n = n % 256 ∷ le_bytes k (n / 256)

-- What one standing adds to the digest: nothing for a member that has not spoken.
unfoldable pub spelled : Bytes → ℕ → Position → Bytes → Bytes
spelled peer seq position name =
    peer ++ (le_bytes 8 seq ++ tag position ∷ (le_bytes 8 (length name) ++ name))

unfoldable pub said_bytes : Bytes → Option Held → Bytes
said_bytes peer none = []
said_bytes peer (some h) = spelled peer h.seq h.position h.username

module _ (X : Platform) where
  -- The bytes that the digest hashes after its tag, member by member.
  unfoldable pub digest_input : StandingSet → Members → Bytes
  digest_input standings [] = []
  digest_input standings ((p, member) ∷ m) =
      said_bytes (X.to_bytes member.peer) (Map.get member.peer standings)
      ++ digest_input standings m

  -- `Members::standings_digest`
  unfoldable pub standings_digest : StandingSet → Members → Bytes
  standings_digest standings m = X.sha256 (2 ∷ digest_input standings m)
