-- ===== src/Net/Username.antt =====
-- crates/ac-net/src/attest.rs: the shape of a username.
use p2parchiver.Common.{ℕ, Bool, true, false, not, ◌&&◌, ◌||◌, [], ◌∷◌, ltb, leb, ◌==◌, length}
use p2parchiver.Common.Result.{Result, ok, ◌>>◌, fail_if}
use p2parchiver.Common.Bytes.{Bytes}
use p2parchiver.Platform.{Platform}

abbrev pub username_min_len : ℕ
username_min_len = 3

abbrev pub username_max_len : ℕ
username_max_len = 32

pub data UsernameError : Type 0 where
  too_short too_long bad_character bad_start : UsernameError

-- `is_ascii_alphanumeric`
abbrev pub is_alphanumeric : ℕ → Bool
is_alphanumeric c =
    (leb b'0' c && leb c b'9') || (leb b'A' c && leb c b'Z') || (leb b'a' c && leb c b'z')

abbrev pub is_username_byte : ℕ → Bool
is_username_byte c = is_alphanumeric c || c == b'-' || c == b'_'

unfoldable pub all_bytes : (ℕ → Bool) → Bytes → Bool
all_bytes p [] = true
all_bytes p (c ∷ cs) = p c && all_bytes p cs

-- A byte above 127 is part of no ASCII character, so a test on bytes is the test on characters.
abbrev pub starts_alphanumeric : Bytes → Bool
starts_alphanumeric [] = false
starts_alphanumeric (c ∷ cs) = is_alphanumeric c

-- The tests on the trimmed, lower-case name.
unfoldable pub check_username : Bytes → Result UsernameError Bytes
unfolding all_bytes
check_username name = do
  fail_if (ltb (length name) username_min_len) too_short
  fail_if (ltb username_max_len (length name)) too_long
  fail_if (not (all_bytes is_username_byte name)) bad_character
  fail_if (not (starts_alphanumeric name)) bad_start
  ok name

module _ (X : Platform) where
  unfoldable pub normalise_username : Bytes → Result UsernameError Bytes
  unfolding check_username
  normalise_username raw = check_username (X.to_lowercase (X.trim raw))
