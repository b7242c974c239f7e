-- ===== src/Tests/ChainTests.antt =====
-- Tests and instances for the membership chain (crates/ac-groups/src/chain.rs).
use p2parchiver.Common.{ℕ, ◌≡◌, refl, ◌⊎◌, true, false, none, some, [], ◌∷◌, get_elem?, any_of}
use p2parchiver.Common.Bytes.{Bytes, bytes_eq}
use p2parchiver.Common.Map
use p2parchiver.Common.Map.{Map}
use p2parchiver.Common.Result.{ok, err, ◌>>=◌}
use p2parchiver.Common.Int.{pos}
use p2parchiver.Net.Identity.{public_key_of}
use p2parchiver.Groups.Id.{GroupId, zero_group, no_parent, of_genesis}
use p2parchiver.Groups.Members
use p2parchiver.Groups.Members.{Members, Member}
use p2parchiver.Groups.Chain.Types.{Entry, EntryBody, Op, ChainError, hash, sign}
use p2parchiver.Groups.Chain.{
  Chain, Verified, extended, fold, check_next, check_genesis, check_op, check_name,
  verify_signature, stage, extend, load, author, entries, departure_seq,
}
use p2parchiver.Tests.Toy.{toy, toy_text, entry_cbor, write_entry}
use p2parchiver.Groups.Chain.Rules.{IsValid}
use p2parchiver.Groups.Chain.Extend.{extend_atomic, load-IsValid}
use p2parchiver.Groups.Chain.Replay.{load-append, author-load}
use p2parchiver.Groups.Chain.Membership.{admin_stays}
use p2parchiver.Groups.Chain.Departure.{departure_places, admits}
use p2parchiver.Groups.Chain.Link.{head_determines, bodies, Collision}

-- Key 7 makes a group, admits peer 9 and removes it again.
abbrev pub family : Bytes
family = 102 ∷ 97 ∷ 109 ∷ []

abbrev pub sealed : EntryBody → Entry
sealed b = record { body = write_entry b; signature = 7 ∷ write_entry b }

abbrev pub checked : EntryBody → Verified
checked b = record { entry = sealed b; body = b; hash = hash toy entry_cbor (sealed b) }

abbrev pub founding : EntryBody
founding = record {
  group = zero_group;
  seq = 0;
  prev = no_parent;
  at = pos 5;
  op = Op.create (7 ∷ []) (1 ∷ []) family;
}

abbrev pub family_id : GroupId
family_id = of_genesis toy (write_entry founding)

abbrev pub admission : EntryBody
admission = record {
  group = family_id;
  seq = 1;
  prev = hash toy entry_cbor (sealed founding);
  at = pos 6;
  op = Op.add (9 ∷ []);
}

abbrev pub removal : EntryBody
removal = record {
  group = family_id;
  seq = 2;
  prev = hash toy entry_cbor (sealed admission);
  at = pos 7;
  op = Op.remove (9 ∷ []);
}

abbrev pub two : Chain
two = record { id = family_id; admin = 7; entries = checked founding ∷ checked admission ∷ [] }

abbrev pub three : Chain
three = record {
  id = family_id;
  admin = 7;
  entries = checked founding ∷ checked admission ∷ checked removal ∷ [];
}

loads_two : load toy entry_cbor (sealed founding ∷ sealed admission ∷ []) ≡ ok two
unfolding load extend stage check_genesis check_next check_name verify_signature check_op
    public_key_of bytes_eq
loads_two = refl

loads_three :
    load toy entry_cbor (sealed founding ∷ sealed admission ∷ sealed removal ∷ []) ≡ ok three
unfolding load extend stage check_genesis check_next check_name verify_signature check_op
    public_key_of bytes_eq fold Members.insert Map.insert
loads_three = refl

authors_removal :
    author toy entry_cbor two 7 (Op.remove (9 ∷ [])) (pos 7) ≡ (three, ok (sealed removal))
unfolding author sign extend stage check_next verify_signature check_op public_key_of bytes_eq fold
    Members.insert Map.insert
authors_removal = refl

two-IsValid : IsValid toy entry_cbor two
two-IsValid = (load-IsValid toy entry_cbor _ two loads_two).0

three-IsValid : IsValid toy entry_cbor three
three-IsValid = (load-IsValid toy entry_cbor _ three loads_three).0

extend_atomic_example :
    ((e : ChainError) × (extend toy entry_cbor two (sealed removal ∷ []) ≡ (two, err e)))
    ⊎ ((d : Chain) × (extend toy entry_cbor two (sealed removal ∷ []) ≡ (d, ok 1))
        × (entries d ≡ sealed founding ∷ sealed admission ∷ sealed removal ∷ [])
        × (d.id ≡ family_id)
        × (d.admin ≡ 7)
        × IsValid toy entry_cbor d)
extend_atomic_example = extend_atomic toy entry_cbor two (sealed removal ∷ []) two-IsValid

load-IsValid_example :
    IsValid toy entry_cbor three
    × (entries three ≡ sealed founding ∷ sealed admission ∷ sealed removal ∷ [])
load-IsValid_example =
    load-IsValid toy entry_cbor (sealed founding ∷ sealed admission ∷ sealed removal ∷ []) three
      loads_three

load-append_example :
    load toy entry_cbor (sealed founding ∷ sealed admission ∷ sealed removal ∷ []) ≡ (
      load toy entry_cbor (sealed founding ∷ sealed admission ∷ []) >>= λ c.
      extended toy entry_cbor (extend toy entry_cbor c (sealed removal ∷ [])))
load-append_example =
    load-append toy entry_cbor (sealed founding) (sealed admission ∷ []) (sealed removal ∷ [])

author-load_example :
    load toy entry_cbor (sealed founding ∷ sealed admission ∷ sealed removal ∷ []) ≡ ok three
author-load_example =
    author-load toy entry_cbor (sealed founding ∷ sealed admission ∷ []) two three 7
      (Op.remove (9 ∷ [])) (pos 7) (sealed removal) loads_two authors_removal

admin_stays_example : Members.contains (fold toy three) 7 ≡ true
admin_stays_example =
    admin_stays toy entry_cbor (sealed founding ∷ sealed admission ∷ sealed removal ∷ []) three
      loads_three

departure_places_example :
    ((Members.contains (fold toy three) 9 ≡ true) × (departure_seq toy three 9 ≡ none))
    ⊎ ((Members.contains (fold toy three) 9 ≡ false)
        × (s : ℕ) × (departure_seq toy three 9 ≡ some s)
        × (v : Verified) × (get_elem? three.entries s ≡ some v)
        × (v.body.op ≡ Op.remove (9 ∷ [])))
    ⊎ ((Members.contains (fold toy three) 9 ≡ false)
        × (departure_seq toy three 9 ≡ none)
        × (any_of (admits (9 ∷ [])) three.entries ≡ false))
departure_places_example = departure_places toy entry_cbor toy_text three 9 three-IsValid

head_determines_example : (bodies two.entries ≡ bodies two.entries) ⊎ Collision toy
head_determines_example = head_determines toy entry_cbor two two two-IsValid two-IsValid refl refl

departure_at_two : departure_seq toy three 9 ≡ some 2
unfolding departure_seq bytes_eq
departure_at_two = refl
