-- ===== src/Tests/StandingTests.antt =====
-- Tests and instances for the standings (crates/ac-groups/src/standing.rs).
use mathlib.Core.List.Perm
use p2parchiver.Common.{ℕ, ◌≤◌, ◌≡◌, refl, true, none, some, List, [], ◌∷◌, arith}
use p2parchiver.Common.Bytes.{Bytes, bytes_eq}
use p2parchiver.Common.Map
use p2parchiver.Common.Map.{Map}
use p2parchiver.Common.Result.{ok}
use p2parchiver.Common.Int.{pos}
use p2parchiver.Platform.{PeerId}
use p2parchiver.Common.Result.{is_ok}
use p2parchiver.Net.Identity.{public_key_of}
use p2parchiver.Net.Username.{normalise_username}
use p2parchiver.Groups.Standing.{
  Held, StandingBody, Position, «in», out, insert, wins, latest, author, verify, wire_len,
  max_standing_bytes,
}
use p2parchiver.Groups.Standing.Signing.{verify-author, verify-Signed}
use p2parchiver.Groups.Members.{Members, standings_digest}
use p2parchiver.Groups.Members.Digest.{digest-perm}
use p2parchiver.Tests.Toy.{
  toy, toy_text, toy_cases, toy_keys, standing_cbor, standing_cbor-RoundTrips, write_standing,
}
use p2parchiver.Groups.Standing.Merge.{insert_all, insert_all-perm, rank_at}

abbrev word : ℕ → Position → Bytes → Held
word n where_to body = record {
  standing = record { body = body; signature = [] };
  seq = n;
  position = where_to;
  username = [];
}

abbrev batch : List (PeerId × Held)
batch = (3, word 2 out (9 ∷ [])) ∷ (3, word 1 «in» (5 ∷ [])) ∷ (4, word 1 «in» (5 ∷ [])) ∷ []

abbrev swapped : List (PeerId × Held)
swapped = (3, word 1 «in» (5 ∷ [])) ∷ (3, word 2 out (9 ∷ [])) ∷ (4, word 1 «in» (5 ∷ [])) ∷ []

insert_all-perm_example : rank_at 3 (insert_all [] batch) ≡ rank_at 3 (insert_all [] swapped)
insert_all-perm_example = insert_all-perm 3 [] batch swapped (Perm.swap _ _ _)

latest_wins : latest (insert_all [] swapped) 3 ≡ some (2, out)
unfolding insert_all insert wins Map.insert
latest_wins = refl

abbrev name : Bytes
name = 97 ∷ 98 ∷ 99 ∷ []

abbrev claim_body : ℕ → Position → StandingBody
claim_body n where_to = record {
  group = 1 ∷ [];
  peer = 3 ∷ [];
  seq = n;
  position = where_to;
  username = name;
  at = pos 0;
}

abbrev claim : ℕ → Position → Held
claim n where_to = record {
  standing = record {
    body = write_standing (claim_body n where_to);
    signature = 3 ∷ write_standing (claim_body n where_to);
  };
  seq = n;
  position = where_to;
  username = name;
}

abbrev claims : List (PeerId × Held)
claims = (3, claim 2 out) ∷ (3, claim 1 «in») ∷ []

abbrev reversed_claims : List (PeerId × Held)
reversed_claims = (3, claim 1 «in») ∷ (3, claim 2 out) ∷ []

abbrev just_three : Members
just_three = (3, record { peer = 3; username = none; is_admin = true }) ∷ []

digest-perm_example :
    standings_digest toy (insert_all [] claims) just_three
    ≡ standings_digest toy (insert_all [] reversed_claims) just_three
digest-perm_example =
    digest-perm standing_cbor toy just_three [] claims reversed_claims (λ p. tt)
      (
        (claim_body 2 out, refl, refl, refl, refl),
        ((claim_body 1 «in», refl, refl, refl, refl), tt),
      )
      (
        (claim_body 1 «in», refl, refl, refl, refl),
        ((claim_body 2 out, refl, refl, refl, refl), tt),
      )
      (Perm.swap _ _ _)

authored : author toy standing_cbor 3 (1 ∷ []) 2 out name (pos 0) ≡ ok (claim 2 out).standing
unfolding author normalise_username
authored = refl

verified : verify toy standing_cbor (claim 2 out).standing (1 ∷ []) ≡ ok (claim_body 2 out)
unfolding verify normalise_username public_key_of bytes_eq
verified = refl

verify-author_example :
    (b : StandingBody) × (verify toy standing_cbor (claim 2 out).standing (1 ∷ []) ≡ ok b)
    × (b.peer ≡ 3 ∷ [])
    × (b.seq ≡ 2)
    × (b.position ≡ out)
    × (normalise_username toy name ≡ ok b.username)
verify-author_example =
    verify-author toy standing_cbor toy_text toy_keys standing_cbor-RoundTrips toy_cases 3 (1 ∷ [])
      2 out name (pos 0) (claim 2 out).standing authored (omega arith)

verify-Signed_example :
    (wire_len (claim 2 out).standing ≤ max_standing_bytes)
    × (standing_cbor.from_reader (claim 2 out).standing.body ≡ some (claim_body 2 out))
    × ((claim_body 2 out).group ≡ 1 ∷ [])
    × (is_ok (normalise_username toy name) ≡ true)
    × (p : PeerId) × (toy.parse_peer_id (3 ∷ []) ≡ some p)
    × (k : toy.PublicKey) × (public_key_of toy p ≡ some k)
    × (toy.verify k (claim 2 out).standing.body (claim 2 out).standing.signature ≡ true)
verify-Signed_example =
    verify-Signed toy standing_cbor (claim 2 out).standing (1 ∷ []) (claim_body 2 out) verified
