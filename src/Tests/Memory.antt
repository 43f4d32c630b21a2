-- ===== src/Tests/Memory.antt =====
-- The simulator's memory and handler at concrete inputs (server.go).
use gofins.Base.{
  ℕ, ◌+◌, ◌*◌, ◌≤◌, ◌<◌, ◌≡◌, refl, ◌↔◌, ◌≢◌, ◌⊎◌, true, false, some, List, [], ◌∷◌, ok, panic,
  ◌>>=◌, arith,
}
use gofins.Area
use gofins.Area.{is_word_area, is_bit_area, check_is_word_memory_area}
use gofins.Area.Disjoint.{word_area_kept}
use gofins.Protocol.{
  Header, Request, Response, default_response_header, encode_response, decode_request,
  decode_header, encode_header, mem_addr, read_command, write_command, memory_area_read,
  memory_area_write, clock_read, normal_completion, not_supported,
}
use gofins.Server.{
  Server, Buffer, Time, new_plc_simulator, dm_area_size, u16, read_words, write_words, read_bits,
  write_bits, handler, serve,
}
use gofins.Server.Words.{with_words, read_words-write_words, read_words_panics_iff}
use gofins.Server.Bits.{read_bits-write_bits}
use gofins.Server.EndToEnd.{frame, reply, serve_write_words, serve-read_words}

abbrev pub zeros : Buffer
zeros _ = 0

abbrev pub noon : Time
noon = record { year = 2024; month = 2; day = 29; hour = 12; minute = 0; second = 59 }

abbrev pub command : Header
command = record {
  message_type = 0;
  response_required = true;
  src = record { network = 0; node = 2; unit = 0 };
  dst = record { network = 0; node = 10; unit = 0 };
  service_id = 7;
  gateway_count = 2;
}

pub dm_kept : new_plc_simulator.word_areas Area.dm_word ≡ some zeros
unfolding new_plc_simulator
dm_kept = refl

pub dm_bits_kept : new_plc_simulator.bit_areas Area.dm_bit ≡ some zeros
unfolding new_plc_simulator
dm_bits_kept = refl

pub dm_is_word : is_word_area Area.dm_word ≡ true
unfolding is_word_area
dm_is_word = refl

-- A word is two bytes and addresses count bytes, so neighbouring words overlap.
words_overlap :
    (write_words new_plc_simulator Area.dm_word 100 2 (1 ∷ 2 ∷ 3 ∷ 4 ∷ []) >>= λ x.
    read_words x.1 Area.dm_word 101 1)
    ≡ ok (2 ∷ 3 ∷ [], normal_completion)
unfolding new_plc_simulator write_words read_words
words_overlap = refl

far_read_panics : read_words new_plc_simulator Area.dm_word 60000 4000 ≡ panic
unfolding new_plc_simulator read_words
far_read_panics = refl

clock_is_served :
    (serve new_plc_simulator (frame command (0x07 ∷ 0x01 ∷ []) []) noon >>= λ x. ok (x.0))
    ≡ ok (
        0xc1 ∷ 0 ∷ 2 ∷ 0 ∷ 2 ∷ 0 ∷ 0 ∷ 10 ∷ 0 ∷ 7 ∷ 0x07 ∷ 0x01 ∷ 0 ∷ 0 ∷ 0x24 ∷ 0x02 ∷ 0x29 ∷ 0x12
        ∷ 0x00 ∷ 0x59 ∷ [])
unfolding serve decode_request decode_header encode_header handler encode_response
    default_response_header
clock_is_served = refl

word_area_kept_example : (is_word_area Area.hr_word ≡ true) × (is_bit_area Area.hr_word ≡ false)
word_area_kept_example = word_area_kept Area.hr_word (unfold check_is_word_memory_area in refl)

abbrev four_bytes : List ℕ
four_bytes = 1 ∷ 2 ∷ 3 ∷ 4 ∷ []

read_words-write_words_example :
    (s' : Server) × (write_words new_plc_simulator Area.dm_word 100 2 four_bytes
      ≡ ok (normal_completion, s'))
    × (read_words s' Area.dm_word 100 2 ≡ ok (four_bytes, normal_completion))
    × ((other from n : ℕ)
        → from + n * 2 < 65536
        → (other ≢ Area.dm_word) ⊎ ((from + n * 2 ≤ 100) ⊎ (100 + 2 * 2 ≤ from))
        → read_words s' other from n ≡ read_words new_plc_simulator other from n)
    × (s'.bit_areas ≡ new_plc_simulator.bit_areas)
read_words-write_words_example =
    read_words-write_words new_plc_simulator Area.dm_word 100 2 four_bytes dm_kept (omega arith)
      refl

read_bits-write_bits_example :
    (s' : Server) × (write_bits new_plc_simulator Area.dm_bit 100 3 2 (1 ∷ 0 ∷ [])
      ≡ ok (normal_completion, s'))
    × (read_bits s' Area.dm_bit 100 3 2 ≡ ok (1 ∷ 0 ∷ [], normal_completion))
    × ((other from offset n : ℕ)
        → from + offset + n < 65536
        → (other ≢ Area.dm_bit) ⊎ ((from + offset + n ≤ 100 + 3) ⊎ (100 + 3 + 2 ≤ from + offset))
        → read_bits s' other from offset n ≡ read_bits new_plc_simulator other from offset n)
    × (s'.word_areas ≡ new_plc_simulator.word_areas)
read_bits-write_bits_example =
    read_bits-write_bits new_plc_simulator Area.dm_bit 100 3 (1 ∷ 0 ∷ []) dm_bits_kept (omega arith)

read_words_panics_iff_example :
    (read_words new_plc_simulator Area.dm_word 60000 4000 ≡ panic)
    ↔ ((u16 (60000 + u16 (4000 * 2)) ≤ dm_area_size) × (u16 (60000 + u16 (4000 * 2)) < 60000))
read_words_panics_iff_example =
    read_words_panics_iff new_plc_simulator Area.dm_word 60000 4000 dm_kept

-- Reading the clock, and a command that the simulator does not know.
abbrev clock_request : Request
clock_request = record {
  header = command;
  command_code = clock_read;
  body = record { elems = []; len = 0 };
}

abbrev unknown_request : Request
unknown_request = record clock_request { command_code = 0x0401 }

abbrev unknown_answer : Response
unknown_answer = record {
  header = default_response_header command;
  command_code = 0x0401;
  end_code = not_supported;
  body = record { elems = []; len = 0 };
}

unknown_is_answered :
    handler new_plc_simulator unknown_request noon ≡ ok (unknown_answer, new_plc_simulator)
unfolding handler
unknown_is_answered = refl

serve_write_words_example :
    serve new_plc_simulator
      (frame command (write_command (mem_addr Area.dm_word 100) 2 four_bytes) (9 ∷ []))
      noon
    ≡ ok (
      encode_response (reply command memory_area_write normal_completion []),
      with_words new_plc_simulator Area.dm_word zeros 100 four_bytes,
    )
serve_write_words_example =
    serve_write_words new_plc_simulator command Area.dm_word 100 2 four_bytes (9 ∷ []) noon
      dm_is_word dm_kept (omega arith) refl

two_zeros : read_words new_plc_simulator Area.dm_word 100 1 ≡ ok (0 ∷ 0 ∷ [], normal_completion)
unfolding new_plc_simulator read_words
two_zeros = refl

serve-read_words_example :
    serve new_plc_simulator (frame command (read_command (mem_addr Area.dm_word 100) 1) []) noon
    ≡ ok (
      encode_response (reply command memory_area_read normal_completion (0 ∷ 0 ∷ [])),
      new_plc_simulator,
    )
serve-read_words_example =
    serve-read_words new_plc_simulator command Area.dm_word 100 1 [] noon dm_is_word (omega arith)
      (omega arith) two_zeros
