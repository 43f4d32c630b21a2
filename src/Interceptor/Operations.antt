-- ===== src/Interceptor/Operations.antt =====
-- Equality of operations.
use gofins.Base.{ℕ, Bool, true, ◌==◌, ◌≡◌, ==_refl}
use gofins.Interceptor.{
  Operation, read_words, read_bytes, read_string, read_bits, read_clock, write_words, write_bytes,
  write_string, write_bits, set_bit, reset_bit, toggle_bit,
}

abbrev pub number : Operation → ℕ
number read_words = 0
number read_bytes = 1
number read_string = 2
number read_bits = 3
number read_clock = 4
number write_words = 5
number write_bytes = 6
number write_string = 7
number write_bits = 8
number set_bit = 9
number reset_bit = 10
number toggle_bit = 11

abbrev pub same : Operation → Operation → Bool
same a b = number a == number b

pub same_refl : (a : Operation) → same a a ≡ true
same_refl a = ==_refl (number a)
