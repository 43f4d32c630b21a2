-- ===== src/Bcd.antt =====
-- Binary-coded decimals: `encodeBCD`, `decodeBCD` and `timesTenPlusCatchingOverflow` of driver.go.
pub mod Overflow
pub mod RoundTrip
use gofins.Base.{
  ℕ, zero, suc, ◌+◌, ◌-◌, ◌*◌, ◌/◌, ◌%◌, ◌^◌, ◌<◌, bit_and, bit_or, Bool, true, false, ◌&&◌, ◌||◌,
  List, [], ◌∷◌, Result, ok, err, bad_hi_digit, bad_lo_digit, bcd_overflow, ◌>>=◌, ltb, leb, ◌==◌,
  if◌then◌else◌,
}

abbrev pub IsU64 : ℕ → Type 0
IsU64 x = x < 2 ^ 64

-- `for xx := x; xx > 0; n++ { xx = xx / 10 }`; a uint64 has twenty digits at most.
digit_count : ℕ → ℕ → ℕ
digit_count zero xx = 0
digit_count (suc fuel) xx =
    let rest = digit_count fuel (xx / 10) in if ltb 0 xx then suc rest else 0

-- `hi<<4 | lo` over two bytes
abbrev bcd_byte : ℕ → ℕ → ℕ
bcd_byte hi lo = bit_or (hi * 16 % 256) lo

-- The second loop writes the bytes from the last to the first: what is written grows at its front.
fill : ℕ → ℕ → List ℕ → List ℕ
fill zero x bcd = bcd
fill (suc i) x bcd = fill i (x / 100) (bcd_byte (x / 10 % 10) (x % 10) ∷ bcd)

unfoldable pub encode_bcd : ℕ → List ℕ
unfolding fill digit_count
encode_bcd x =
    let n = digit_count 20 x in
    let odd = fill ((n - 1) / 2) (x / 10) (bcd_byte (x % 10) 0x0f ∷ []) in
    let even = fill (n / 2) x [] in if x == 0 then 0x0f ∷ [] else if n % 2 == 1 then odd else even

unfoldable pub times_ten_plus_catching_overflow : ℕ → ℕ → Result ℕ
times_ten_plus_catching_overflow x digit =
    let x5 = (x * 4 % 2 ^ 64 + x) % 2 ^ 64 in
    if leb (2 ^ 63) x5 || ltb (2 ^ 64 - 1 - digit) (x5 * 2 % 2 ^ 64)
    then err bcd_overflow
    else ok ((x5 * 2 % 2 ^ 64 + digit) % 2 ^ 64)

abbrev is_last : List ℕ → Bool
is_last [] = true
is_last (b ∷ bs) = false

-- The list is what `range bcd` has not reached.
decode_loop : List ℕ → ℕ → Result ℕ
decode_loop [] x = ok x
decode_loop (b ∷ bs) x =
    let hi = b / 16 in
    let lo = bit_and b 0x0f in
    if ltb 9 hi
    then err (bad_hi_digit hi)
    else (times_ten_plus_catching_overflow x hi >>= λ x'.
        if lo == 0x0f && is_last bs
        then ok x'
        else if ltb 9 lo
        then err (bad_lo_digit lo)
        else (times_ten_plus_catching_overflow x' lo >>= decode_loop bs))

unfoldable pub decode_bcd : List ℕ → Result ℕ
unfolding decode_loop
decode_bcd bcd = decode_loop bcd 0
