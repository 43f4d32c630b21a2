-- ===== src/Bcd/Overflow.antt =====
-- What `timesTenPlusCatchingOverflow` catches, and what it misses.
use gofins.Base.{
  ℕ, ◌+◌, ◌*◌, ◌%◌, ◌^◌, ◌<◌, ◌≤◌, ◌≡◌, ok, err, bcd_overflow, arith, ltb, if◌then◌else◌,
}
use gofins.Bcd.{IsU64, times_ten_plus_catching_overflow}

-- As long as five times the number fits 64 bits, the result is ten times the number plus the
-- digit if that fits, and the overflow error if it does not.
pub times_ten_exact :
    (x digit : ℕ)
    → 5 * x < 2 ^ 64
    → digit ≤ 9
    → times_ten_plus_catching_overflow x digit
      ≡ (if ltb (10 * x + digit) (2 ^ 64) then ok (10 * x + digit) else err bcd_overflow)
unfolding times_ten_plus_catching_overflow
times_ten_exact x digit h d = ground arith

-- Where five times the number wraps to less than half the range, the overflow is missed: the
-- result is an in-range number, the true one reduced modulo 2 ^ 64.
pub times_ten_missed :
    (x digit : ℕ)
    → IsU64 x
    → 2 ^ 64 ≤ 5 * x
    → 5 * x % 2 ^ 64 + 5 < 2 ^ 63
    → digit ≤ 9
    → times_ten_plus_catching_overflow x digit ≡ ok ((10 * x + digit) % 2 ^ 64)
unfolding times_ten_plus_catching_overflow
times_ten_missed x digit u h w d = ground arith
