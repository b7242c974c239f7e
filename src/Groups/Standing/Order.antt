-- ===== src/Groups/Standing/Order.antt =====
-- The ordering rule of standing.rs is a strict total order on what it compares.
use p2parchiver.Common.{ℕ, ◌≡◌, inl, inr, true, false, arith, Bool-cases}
use p2parchiver.Common.Bytes.{Bytes, bytes_lt_irrefl, bytes_lt_trans, bytes_lt_total}
use p2parchiver.Groups.Standing.{wins}

pub wins_irrefl : (a : ℕ × Bytes) → wins a a ≡ false
unfolding wins
wins_irrefl (n, a) = ground (arith, bytes_lt_irrefl a)

pub wins_trans : (a b c : ℕ × Bytes) → wins a b ≡ true → wins b c ≡ true → wins a c ≡ true
unfolding wins
wins_trans (n, a) (m, b) (k, c) h i = ground (arith, bytes_lt_trans a b c)

-- Two statements of which neither wins have the same seq and the same signed bytes.
pub wins_total : (a b : ℕ × Bytes) → wins a b ≡ false → wins b a ≡ false → a ≡ b
unfolding wins
wins_total (n, a) (m, b) h i = ground (arith, bytes_lt_total a b)

-- At most one of two statements wins.
pub wins_asymm : (a b : ℕ × Bytes) → wins a b ≡ true → wins b a ≡ false
wins_asymm a b h = elim (Bool-cases (wins b a)) [
  | inl back ↦ cc (wins_trans a b a h back, wins_irrefl a)
  | inr lost ↦ lost
]
