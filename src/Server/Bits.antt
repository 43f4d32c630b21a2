-- ===== src/Server/Bits.antt =====
-- `readBits` and `writeBits` of server.go: one byte for each bit, from `address + bitOffset` on.
use gofins.Base.{
  ℕ, ◌+◌, ◌-◌, ◌≤◌, ◌<◌, ◌≡◌, refl, ◌≢◌, ◌↔◌, ◌⊎◌, some, List, [], ok, panic, arith, length, ltb,
  if◌then◌else◌,
}
use gofins.Protocol.{normal_completion, address_range_exceeded}
use gofins.Server.{
  Buffer, Server, dm_area_size, u16, cells, copy_in, put_area, read_range, read_bits, write_bits,
}
use gofins.Server.Ranges.{write_range_ok, read_range_written, read_range_apart}

-- The server after a write of bits from `start` on.
abbrev pub with_bits : Server → ℕ → Buffer → ℕ → List ℕ → Server
with_bits s area buf start payload = record s {
  bit_areas = put_area s.bit_areas area (copy_in buf start (length payload) payload);
}

pub write_bits_ok :
    (s : Server) (area address bit_offset : ℕ) (payload : List ℕ) {buf : Buffer}
    → s.bit_areas area ≡ some buf
    → address + bit_offset + length payload ≤ dm_area_size
    → write_bits s area address bit_offset (length payload) payload
      ≡ ok (normal_completion, with_bits s area buf (address + bit_offset) payload)
unfolding write_bits
write_bits_ok s area address bit_offset payload {buf} h fits =
    let b : u16 (address + bit_offset) ≡ address + bit_offset = omega arith in
    let e : u16 (address + bit_offset + length payload) ≡ address + bit_offset + length payload =
      omega arith in
    rw (
      b,
      e,
      write_range_ok s.bit_areas area (address + bit_offset) (address + bit_offset + length payload)
          payload h refl fits,
    )

-- After a write of bits that fit the area, the write has succeeded, reading the same bits gives
-- them back, reading any other bit area or bits apart from the written ones gives what it gave
-- before, and the word areas are as they were.
pub read_bits-write_bits :
    (s : Server) (area address bit_offset : ℕ) (payload : List ℕ) {buf : Buffer}
    → s.bit_areas area ≡ some buf
    → address + bit_offset + length payload ≤ dm_area_size
    → (s' : Server) × (write_bits s area address bit_offset (length payload) payload
        ≡ ok (normal_completion, s'))
      × (read_bits s' area address bit_offset (length payload) ≡ ok (payload, normal_completion))
      × ((other from offset n : ℕ)
          → from + offset + n < 65536
          → (other ≢ area)
            ⊎ ((from + offset + n ≤ address + bit_offset)
                ⊎ (address + bit_offset + length payload ≤ from + offset))
          → read_bits s' other from offset n ≡ read_bits s other from offset n)
      × (s'.word_areas ≡ s.word_areas)
unfolding read_bits
read_bits-write_bits s area address bit_offset payload {buf} h fits = (
  with_bits s area buf (address + bit_offset) payload,
  write_bits_ok s area address bit_offset payload h fits,
  (let b : u16 (address + bit_offset) ≡ address + bit_offset = omega arith in
      let e : u16 (address + bit_offset + length payload) ≡ address + bit_offset + length payload =
        omega arith in
      rw (b, e)
        (read_range_written s.bit_areas area (address + bit_offset)
          (address + bit_offset + length payload) payload buf refl fits)),
  (λ other from offset n small apart.
      let b : u16 (from + offset) ≡ from + offset = omega arith in
      let e : u16 (from + offset + n) ≡ from + offset + n = omega arith in
      rw (b, e)
        (read_range_apart s.bit_areas area (address + bit_offset) (length payload) payload other
          (from + offset) (from + offset + n) h apart)),
  refl,
)

-- As long as no sum passes 65535, reading bits is exact: a range past the area's end is answered
-- by its end code, and any other read returns the bits of its range.
pub read_bits_in_range :
    (s : Server) (area address bit_offset count : ℕ) {buf : Buffer}
    → s.bit_areas area ≡ some buf
    → address + bit_offset + count < 65536
    → read_bits s area address bit_offset count ≡ (
        if ltb dm_area_size (address + bit_offset + count)
        then ok ([], address_range_exceeded)
        else ok (cells buf (address + bit_offset) count, normal_completion))
unfolding read_bits read_range
read_bits_in_range s area address bit_offset count {buf} h small =
    let b : u16 (address + bit_offset) ≡ address + bit_offset = omega arith in
    let e : u16 (address + bit_offset + count) ≡ address + bit_offset + count = omega arith in
    let d : address + bit_offset + count - (address + bit_offset) ≡ count = omega arith in
    rw (b, e, h, d) (ground arith)

-- A read from a kept bit area panics exactly if the wrapped end of its range passes the range
-- check and lies before its wrapped beginning.
pub read_bits_panics_iff :
    (s : Server) (area address bit_offset count : ℕ) {buf : Buffer}
    → s.bit_areas area ≡ some buf
    → let start = u16 (address + bit_offset) in
      let end = u16 (start + count) in
      (read_bits s area address bit_offset count ≡ panic) ↔ ((end ≤ dm_area_size) × (end < start))
unfolding read_bits read_range
read_bits_panics_iff s area address bit_offset count h =
    rw h ((λ p. ground arith), (λ p. ground arith))
