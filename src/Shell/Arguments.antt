-- ===== src/Shell/Arguments.antt =====
-- The arguments of a command: parseUintWithSize and the parsers on it, parseWordArea, parseBitArea
-- and the slices of examples/client/main.go, with strconv.ParseUint in base ten.
use Prim.Native.String.{String}
use gofins.Base.{
  ℕ, ◌+◌, ◌-◌, ◌*◌, ◌/◌, ◌%◌, ◌^◌, Bool, true, false, ◌||◌, List, [], ◌∷◌, Result, ok, err, panic,
  ◌>>=◌, unknown_word_area, unknown_bit_area, invalid_bit_value, invalid_number, number_syntax,
  number_range, ltb, leb, if◌then◌else◌,
}
use gofins.Area
use gofins.Shell.Texts.{Text, switch, to_lower}

-- The largest number of that many bits.
abbrev pub max_of : ℕ → ℕ
max_of bits = 2 ^ bits - 1

-- `math.MaxUint64/base + 1`
abbrev pub cutoff : ℕ
cutoff = (2 ^ 64 - 1) / 10 + 1

-- A round of the loop of strconv.ParseUint in base ten, on the number so far and a letter; the sum
-- and its test for overflow are of uint64.
unfoldable pub scan_letter : ℕ → ℕ → ℕ → Result ℕ
scan_letter bits n c =
    let tens = n * 10 % 2 ^ 64 in
    let sum = (tens + (c - b'0')) % 2 ^ 64 in
    if ltb c b'0' || ltb b'9' c
    then err number_syntax
    else if leb cutoff n || (ltb sum tens || ltb (max_of bits) sum)
    then err number_range
    else ok sum

unfoldable pub scan : ℕ → ℕ → Text → Result ℕ
unfolding scan_letter
scan bits n [] = ok n
scan bits n (c ∷ s) = do m ← scan_letter bits n c; scan bits m s

-- strconv.ParseUint(s, 10, bits)
unfoldable pub parse_uint : ℕ → Text → Result ℕ
unfolding scan
parse_uint bits [] = err number_syntax
parse_uint bits (c ∷ s) = scan bits 0 (c ∷ s)

-- The wrapping of the error.
abbrev pub named : Text → Result ℕ → Result ℕ
named s (ok v) = ok v
named s (err e) = err (invalid_number s e)
named s panic = panic

-- `parseUintWithSize`
unfoldable pub parse_uint_with_size : Text → ℕ → Result ℕ
unfolding parse_uint
parse_uint_with_size s bits = named s (parse_uint bits s)

unfoldable pub parse_uint16 : Text → Result ℕ
unfolding parse_uint_with_size
parse_uint16 s = do v ← parse_uint_with_size s 16; ok (v % 2 ^ 16)

unfoldable pub parse_byte : Text → Result ℕ
unfolding parse_uint_with_size
parse_byte s = do v ← parse_uint_with_size s 8; ok (v % 2 ^ 8)

-- The loops over the values of a write.
unfoldable pub parse_each {ℓ} : {A : Type ℓ} → (Text → Result A) → List Text → Result (List A)
parse_each parse [] = ok []
parse_each parse (s ∷ rest) = do v ← parse s; vs ← parse_each parse rest; ok (v ∷ vs)

abbrev pub parse_uint16_slice : List Text → Result (List ℕ)
parse_uint16_slice = parse_each parse_uint16

abbrev pub parse_byte_slice : List Text → Result (List ℕ)
parse_byte_slice = parse_each parse_byte

-- The cases of parseBoolSlice's `switch`, and the value of one text.
abbrev pub bool_cases : List (List String × Result Bool)
bool_cases =
    ("1" ∷ "true" ∷ "t" ∷ "on" ∷ [], ok true) ∷ ("0" ∷ "false" ∷ "f" ∷ "off" ∷ [], ok false) ∷ []

abbrev pub parse_bool : Text → Result Bool
parse_bool s = switch bool_cases (err (invalid_bit_value s)) (to_lower s)

abbrev pub parse_bool_slice : List Text → Result (List Bool)
parse_bool_slice = parse_each parse_bool

-- The cases of its `switch`.
abbrev pub word_area_cases : List (List String × Result ℕ)
word_area_cases =
    ("dm" ∷ "dmw" ∷ "dmword" ∷ [], ok Area.dm_word)
    ∷ ("wr" ∷ "wrw" ∷ "wrword" ∷ [], ok Area.wr_word)
    ∷ ("hr" ∷ "hrw" ∷ "hrword" ∷ [], ok Area.hr_word)
    ∷ ("ar" ∷ "arw" ∷ "arword" ∷ [], ok Area.ar_word)
    ∷ ("cio" ∷ "ciow" ∷ "cioword" ∷ [], ok Area.cio_word)
    ∷ []

unfoldable pub parse_word_area : Text → Result ℕ
parse_word_area s = switch word_area_cases (err (unknown_word_area s)) (to_lower s)

-- The cases of its `switch`.
abbrev pub bit_area_cases : List (List String × Result ℕ)
bit_area_cases =
    ("dm" ∷ "dmb" ∷ "dmbit" ∷ [], ok Area.dm_bit)
    ∷ ("wr" ∷ "wrb" ∷ "wrbit" ∷ [], ok Area.wr_bit)
    ∷ ("hr" ∷ "hrb" ∷ "hrbit" ∷ [], ok Area.hr_bit)
    ∷ ("ar" ∷ "arb" ∷ "arbit" ∷ [], ok Area.ar_bit)
    ∷ ("cio" ∷ "ciob" ∷ "ciobit" ∷ [], ok Area.cio_bit)
    ∷ []

unfoldable pub parse_bit_area : Text → Result ℕ
parse_bit_area s = switch bit_area_cases (err (unknown_bit_area s)) (to_lower s)
