-- ===== src/Server/Words.antt =====
-- `readWords` and `writeWords` of server.go.
use gofins.Base.{
  ℕ, ◌+◌, ◌*◌, ◌≤◌, ◌<◌, ◌≡◌, refl, ◌≢◌, ◌↔◌, ◌⊎◌, some, List, ok, panic, arith, length,
}
use gofins.Protocol.{normal_completion}
use gofins.Server.{
  Buffer, Server, dm_area_size, u16, copy_in, put_area, read_range, read_words, write_words,
}
use gofins.Server.Ranges.{write_range_ok, read_range_written, read_range_apart}

-- The server after a write of whole words.
abbrev pub with_words : Server → ℕ → Buffer → ℕ → List ℕ → Server
with_words s area buf address payload = record s {
  word_areas = put_area s.word_areas area (copy_in buf address (length payload) payload);
}

-- A write of `count` words that fit the area succeeds and stores the payload in place of the range's bytes.
pub write_words_ok :
    (s : Server) (area address count : ℕ) (payload : List ℕ) {buf : Buffer}
    → s.word_areas area ≡ some buf
    → address + count * 2 ≤ dm_area_size
    → length payload ≡ count * 2
    → write_words s area address count payload
      ≡ ok (normal_completion, with_words s area buf address payload)
unfolding write_words
write_words_ok s area address count payload {buf} h fits l =
    let e : u16 (address + u16 (count * 2)) ≡ address + length payload = omega arith in
    rw (
      e,
      write_range_ok s.word_areas area address (address + length payload) payload h refl
          (omega arith),
    )

-- After a write of `count` words that fit the area, the write has succeeded, reading the same
-- words gives the payload back, reading any other area or any range apart from the written one
-- gives what it gave before, and the bit areas are as they were.
pub read_words-write_words :
    (s : Server) (area address count : ℕ) (payload : List ℕ) {buf : Buffer}
    → s.word_areas area ≡ some buf
    → address + count * 2 ≤ dm_area_size
    → length payload ≡ count * 2
    → (s' : Server) × (write_words s area address count payload ≡ ok (normal_completion, s'))
      × (read_words s' area address count ≡ ok (payload, normal_completion))
      × ((other from n : ℕ)
          → from + n * 2 < 65536
          → (other ≢ area) ⊎ ((from + n * 2 ≤ address) ⊎ (address + count * 2 ≤ from))
          → read_words s' other from n ≡ read_words s other from n)
      × (s'.bit_areas ≡ s.bit_areas)
unfolding read_words
read_words-write_words s area address count payload {buf} h fits l = (
  with_words s area buf address payload,
  write_words_ok s area address count payload h fits l,
  (let e : u16 (address + u16 (count * 2)) ≡ address + length payload = omega arith in
      rw e (
        read_range_written s.word_areas area address (address + length payload) payload buf refl
          (omega arith))),
  (λ other from n small apart.
      let e : u16 (from + u16 (n * 2)) ≡ from + n * 2 = omega arith in
      rw e (
        read_range_apart s.word_areas area address (length payload) payload other from
          (from + n * 2) h (ground arith))),
  refl,
)

-- A read from a kept area panics exactly if the wrapped end of its range passes the range check
-- and lies before its beginning: the slice bounds are then reversed.
pub read_words_panics_iff :
    (s : Server) (area address count : ℕ) {buf : Buffer}
    → s.word_areas area ≡ some buf
    → let end = u16 (address + u16 (count * 2)) in
      (read_words s area address count ≡ panic) ↔ ((end ≤ dm_area_size) × (end < address))
unfolding read_words read_range
read_words_panics_iff s area address count h = rw h ((λ p. ground arith), (λ p. ground arith))

-- The doubling of a count wraps: 32768 words more are read as none, and written as none.
pub words_count_wraps :
    (s : Server) (area address count : ℕ) (payload : List ℕ)
    → (read_words s area address (count + 32768) ≡ read_words s area address count)
      × (write_words s area address (count + 32768) payload
          ≡ write_words s area address count payload)
unfolding read_words write_words
words_count_wraps s area address count payload =
    let e : u16 ((count + 32768) * 2) ≡ u16 (count * 2) = omega arith in (rw e, rw e)
