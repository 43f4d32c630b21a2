-- ===== src/Area/Disjoint.antt =====
-- No area is both a word area and a bit area.
use gofins.Base.{ℕ, ◌≡◌, true, false, arith}
use gofins.Area.{check_is_word_memory_area, check_is_bit_memory_area, is_word_area, is_bit_area}

-- What the client accepts as a word area the simulator keeps as one, and not as a bit area.
pub word_area_kept :
    (area : ℕ)
    → check_is_word_memory_area area ≡ true
    → (is_word_area area ≡ true) × (is_bit_area area ≡ false)
unfolding check_is_word_memory_area is_word_area is_bit_area
word_area_kept area h = (ground arith, ground arith)

-- What the client accepts as a bit area the simulator keeps as one, and not as a word area.
pub bit_area_kept :
    (area : ℕ)
    → check_is_bit_memory_area area ≡ true
    → (is_bit_area area ≡ true) × (is_word_area area ≡ false)
unfolding check_is_bit_memory_area is_word_area is_bit_area
bit_area_kept area h = (ground arith, ground arith)
