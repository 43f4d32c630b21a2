-- ===== src/Bcd/RoundTrip.antt =====
-- `decodeBCD` reads back what `encodeBCD` wrote.
use gofins.Base.{
  ℕ, zero, suc, ◌+◌, ◌-◌, ◌*◌, ◌/◌, ◌%◌, ◌<◌, ◌≤◌, ◌≡◌, refl, ◌≢◌, ◌∙◌, inl, inr, ◌==◌, ==→≡,
  Bool-cases, List, [], ◌∷◌, ok, arith, nibbles_lem, low_nibble, ge→ltb, lt→==, bit_and,
}
use gofins.Bcd.{
  IsU64, digit_count, fill, encode_bcd, bcd_byte, decode_loop, decode_bcd,
  times_ten_plus_catching_overflow,
}
use gofins.Bcd.Overflow.{times_ten_exact}

-- `x` without its last `k` pairs of digits, and without its last `k` digits.
drop_pairs : ℕ → ℕ → ℕ
drop_pairs zero x = x
drop_pairs (suc k) x = drop_pairs k (x / 100)

drop_digits : ℕ → ℕ → ℕ
drop_digits zero x = x
drop_digits (suc k) x = drop_digits k (x / 10)

bcd_byte_lem : (hi lo : ℕ) → hi ≤ 9 → lo < 16 → bcd_byte hi lo ≡ hi * 16 + lo
bcd_byte_lem hi lo h l = ground (arith, nibbles_lem hi lo)

-- Within the range, one more digit is taken in.
times_ten_ok :
    (x d : ℕ) → d ≤ 9 → IsU64 (10 * x + d) → times_ten_plus_catching_overflow x d ≡ ok (10 * x + d)
times_ten_ok x d hd hx = ground (arith, times_ten_exact x d)

-- One byte of two digits.
decode_two :
    (hi lo x : ℕ) (bs : List ℕ)
    → hi ≤ 9
    → lo ≤ 9
    → IsU64 (10 * (10 * x + hi) + lo)
    → decode_loop (bcd_byte hi lo ∷ bs) x ≡ decode_loop bs (10 * (10 * x + hi) + lo)
unfolding decode_loop
decode_two hi lo x bs h l u =
    let high : (hi * 16 + lo) / 16 ≡ hi = omega arith in
    let low : bit_and (hi * 16 + lo) 0x0f ≡ lo =
      low_nibble (hi * 16 + lo) (omega arith) ∙ omega arith in
    rw (
      bcd_byte_lem hi lo h (omega arith),
      high,
      low,
      ge→ltb 9 hi h,
      times_ten_ok x hi h (omega arith),
      lt→== lo 0x0f (omega arith),
      ge→ltb 9 lo l,
      times_ten_ok (10 * x + hi) lo l u,
    )

decode_pair :
    (p x : ℕ) (bs : List ℕ)
    → IsU64 p
    → decode_loop (bcd_byte (p / 10 % 10) (p % 10) ∷ bs) (p / 100) ≡ decode_loop bs p
decode_pair p x bs hp =
    let e : 10 * (10 * (p / 100) + p / 10 % 10) + p % 10 ≡ p = omega arith in
    rw e at
      (decode_two (p / 10 % 10) (p % 10) (p / 100) bs (omega arith) (omega arith) (omega arith))

-- The last byte of an odd number of digits.
decode_last : (x : ℕ) → IsU64 x → decode_loop (bcd_byte (x % 10) 0x0f ∷ []) (x / 10) ≡ ok x
unfolding decode_loop
decode_last x u =
    rw (bcd_byte_lem (x % 10) 0x0f (omega arith) (omega arith))
      (ground (arith, low_nibble (x % 10 * 16 + 0x0f), times_ten_ok (x / 10) (x % 10)))

decode_loop-fill :
    (k x : ℕ) (bcd : List ℕ)
    → IsU64 x
    → drop_pairs k x ≡ 0
    → decode_loop (fill k x bcd) 0 ≡ decode_loop bcd x
unfolding fill drop_pairs
decode_loop-fill zero x bcd u h = rw h
decode_loop-fill (suc k) x bcd u h =
    decode_loop-fill k (x / 100) (bcd_byte (x / 10 % 10) (x % 10) ∷ bcd) (omega arith) h
    ∙ decode_pair x x bcd u

-- Twenty digits are enough for 64 bits.
drop_digits-zero : (x : ℕ) → IsU64 x → drop_digits 20 x ≡ 0
unfolding drop_digits
drop_digits-zero x u = omega arith

-- With enough fuel, a number of `2 * k` digits has no more than `k` pairs of them.
count_even : (k f x : ℕ) → drop_digits f x ≡ 0 → digit_count f x ≡ 2 * k → drop_pairs k x ≡ 0
unfolding drop_pairs digit_count drop_digits
count_even zero zero x h e = h
count_even zero (suc f) x h e = ground arith
count_even (suc k) zero x h e = absurd (omega arith)
count_even (suc k) (suc zero) x h e = ground arith
count_even (suc k) (suc (suc f)) x h e =
    let d : x / 10 / 10 ≡ x / 100 = omega arith in ground (arith, d, count_even k f (x / 100))

count_odd :
    (k f x : ℕ) → drop_digits f x ≡ 0 → digit_count f x ≡ 2 * k + 1 → drop_pairs k (x / 10) ≡ 0
unfolding digit_count drop_digits
count_odd k zero x h e = absurd (omega arith)
count_odd k (suc f) x h e = ground (arith, count_even k f (x / 10))

decode_odd :
    (x : ℕ)
    → IsU64 x
    → digit_count 20 x % 2 ≡ 1
    → decode_loop (fill ((digit_count 20 x - 1) / 2) (x / 10) (bcd_byte (x % 10) 0x0f ∷ [])) 0
      ≡ ok x
decode_odd x u o =
    decode_loop-fill ((digit_count 20 x - 1) / 2) (x / 10) (bcd_byte (x % 10) 0x0f ∷ [])
      (omega arith)
      (count_odd ((digit_count 20 x - 1) / 2) 20 x (drop_digits-zero x u) (omega arith))
    ∙ decode_last x u

decode_even :
    (x : ℕ)
    → IsU64 x
    → digit_count 20 x % 2 ≢ 1
    → decode_loop (fill (digit_count 20 x / 2) x []) 0 ≡ ok x
unfolding decode_loop
decode_even x u o =
    decode_loop-fill (digit_count 20 x / 2) x [] u
      (count_even (digit_count 20 x / 2) 20 x (drop_digits-zero x u) (omega arith))

-- Every uint64 survives `encodeBCD` and `decodeBCD`.
pub decode_bcd-encode_bcd : (x : ℕ) → IsU64 x → decode_bcd (encode_bcd x) ≡ ok x
unfolding decode_bcd encode_bcd
decode_bcd-encode_bcd x u = elim (Bool-cases (x == 0)) [
  | inl z ↦ rw (z, ==→≡ x 0 z) (unfold decode_loop times_ten_plus_catching_overflow in refl)
  | inr nz ↦ rw nz (elim (Bool-cases (digit_count 20 x % 2 == 1)) [
    | inl o ↦ rw o (decode_odd x u (==→≡ _ _ o))
    | inr e ↦ rw e (decode_even x u (λ o. ground arith))
  ])
]
