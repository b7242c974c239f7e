-- ===== src/Groups/Id.antt =====
-- crates/ac-groups/src/id.rs: group ids and entry hashes, 32 bytes each.
use p2parchiver.Common.{ℕ, zero, suc, [], ◌∷◌}
use p2parchiver.Common.Bytes.{Bytes}
use p2parchiver.Platform.{Platform}

abbrev pub GroupId : Type 0
GroupId = Bytes

abbrev pub EntryHash : Type 0
EntryHash = Bytes

abbrev pub tag_group : ℕ
tag_group = 1

abbrev pub tag_entry : ℕ
tag_entry = 0

abbrev pub zeros : ℕ → Bytes
zeros zero = []
zeros (suc n) = 0 ∷ zeros n

-- `GroupId::ZERO`
abbrev pub zero_group : GroupId
zero_group = zeros 32

abbrev pub no_parent : EntryHash
no_parent = zeros 32

module _ (X : Platform) where
  abbrev pub tagged : ℕ → Bytes → Bytes
  tagged tag bytes = X.sha256 (tag ∷ bytes)

  -- `GroupId::of_genesis`
  abbrev pub of_genesis : Bytes → GroupId
  of_genesis body = tagged tag_group body

  -- `EntryHash::of_body`
  abbrev pub of_body : Bytes → EntryHash
  of_body body = tagged tag_entry body
