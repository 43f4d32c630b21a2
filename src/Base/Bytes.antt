-- ===== src/Base/Bytes.antt =====
-- Bit operations over one byte, as arithmetic. Each fact is checked at every byte.
use Prim.Native.Nat.{ℕ, zero, suc, ◌+◌, ◌*◌, ◌/◌, ◌%◌, ◌<◌, bit_and, bit_or}
use mathlib.Core.Path.{◌≡◌, refl}
use mathlib.Core.Bool.{Bool, true, ◌&&◌}
use native.Mathlib.Omega.{arith}
use gofins.Base.Tests.{◌==◌}

-- Two functions give equal values at the first `n` numbers.
agree : (f g : ℕ → ℕ) → ℕ → Bool
agree f g zero = true
agree f g (suc n) = agree f g n && f n == g n

agree-eq : (f g : ℕ → ℕ) (n b : ℕ) → b < n → agree f g n ≡ true → f b ≡ g b
unfolding agree
agree-eq f g zero b below same = absurd (omega arith)
agree-eq f g (suc n) b below same = ground (arith, agree-eq f g n b)

low_nibbles_agree : agree (λ b. bit_and b 0x0f) (λ b. b % 16) 256 ≡ true
unfolding agree
low_nibbles_agree = refl

pub low_nibble : (b : ℕ) → b < 256 → bit_and b 0x0f ≡ b % 16
low_nibble b h = agree-eq (λ b. bit_and b 0x0f) (λ b. b % 16) 256 b h low_nibbles_agree

joined_nibbles_agree : agree (λ b. bit_or (b / 16 * 16) (b % 16)) (λ b. b) 256 ≡ true
unfolding agree
joined_nibbles_agree = refl

join_nibbles : (b : ℕ) → b < 256 → bit_or (b / 16 * 16) (b % 16) ≡ b
join_nibbles b h =
    agree-eq (λ b. bit_or (b / 16 * 16) (b % 16)) (λ b. b) 256 b h joined_nibbles_agree

-- `hi<<4 | lo` for two nibbles.
pub nibbles_lem : (hi lo : ℕ) → hi < 16 → lo < 16 → bit_or (hi * 16) lo ≡ hi * 16 + lo
nibbles_lem hi lo h l =
    let e : (hi * 16 + lo) / 16 ≡ hi = omega arith in
    let d : (hi * 16 + lo) % 16 ≡ lo = omega arith in
    rw (e, d) at (join_nibbles (hi * 16 + lo) (omega arith))

low_bits_agree : agree (λ b. bit_and b 1) (λ b. b % 2) 256 ≡ true
unfolding agree
low_bits_agree = refl

-- `b & 0x01`
pub low_bit : (b : ℕ) → b < 256 → bit_and b 1 ≡ b % 2
low_bit b h = agree-eq (λ b. bit_and b 1) (λ b. b % 2) 256 b h low_bits_agree
