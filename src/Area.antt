-- ===== src/Area.antt =====
-- The memory areas of memory_area.go, and the client's two checks of them (client.go).
pub mod Disjoint
use gofins.Base.{ℕ, Bool, ◌||◌, ◌==◌}

abbrev pub cio_bit : ℕ
cio_bit = 0x30

abbrev pub wr_bit : ℕ
wr_bit = 0x31

abbrev pub hr_bit : ℕ
hr_bit = 0x32

abbrev pub ar_bit : ℕ
ar_bit = 0x33

abbrev pub cio_word : ℕ
cio_word = 0xb0

abbrev pub wr_word : ℕ
wr_word = 0xb1

abbrev pub hr_word : ℕ
hr_word = 0xb2

abbrev pub ar_word : ℕ
ar_word = 0xb3

abbrev pub dm_bit : ℕ
dm_bit = 0x02

abbrev pub dm_word : ℕ
dm_word = 0x82

unfoldable pub check_is_word_memory_area : ℕ → Bool
check_is_word_memory_area area =
    area == dm_word || (area == ar_word || (area == hr_word || area == wr_word))

unfoldable pub check_is_bit_memory_area : ℕ → Bool
check_is_bit_memory_area area =
    area == dm_bit || (area == ar_bit || (area == hr_bit || area == wr_bit))

-- The areas that the simulator keeps: the client's, and CIO.
unfoldable pub is_word_area : ℕ → Bool
is_word_area area =
    area == dm_word
    || (area == wr_word || (area == hr_word || (area == ar_word || area == cio_word)))

unfoldable pub is_bit_area : ℕ → Bool
is_bit_area area =
    area == dm_bit || (area == wr_bit || (area == hr_bit || (area == ar_bit || area == cio_bit)))
