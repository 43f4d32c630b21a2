-- ===== src/Server.antt =====
-- The PLC simulator of server.go: its memory and its request handler. A buffer of DM_AREA_SIZE
-- bytes is a function of the index; every access is checked against the size, as Go checks it.
pub mod Ranges
pub mod Words
pub mod Bits
pub mod Handling
pub mod Invariant
pub mod EndToEnd
pub mod Udp
pub mod Start
use gofins.Base.{
  ℕ, zero, suc, ◌+◌, ◌-◌, ◌*◌, ◌/◌, ◌%◌, min, Bool, true, false, ◌&&◌, ◌||◌, bit_or, Option, none,
  some, List, [], ◌∷◌, Result, ok, check, ◌>>=◌, ◌>>◌, Slice, to_list, of_list, reslice, u16_at,
  big_endian, length, get_or, ltb, leb, ◌==◌, if◌then◌else◌,
}
use gofins.Area.{is_word_area, is_bit_area}
use gofins.Protocol.{
  MemoryAddress, Request, Response, decode_memory_address, decode_request, encode_response,
  default_response_header, normal_completion, not_supported, address_range_exceeded,
  memory_area_read, memory_area_write, clock_read,
}

abbrev pub dm_area_size : ℕ
dm_area_size = 32768

abbrev pub u16 : ℕ → ℕ
u16 n = n % 65536

abbrev pub Buffer : Type 0
Buffer = ℕ → ℕ

abbrev pub AreaMap : Type 0
AreaMap = ℕ → Option Buffer

pub record Server : Type 0 where
  pub word_areas : AreaMap
  pub bit_areas : AreaMap
  pub closed : Bool

-- The memory of `NewPLCSimulator`: five word areas and five bit areas of zeros.
unfoldable pub new_plc_simulator : Server
unfolding is_word_area is_bit_area
new_plc_simulator = record {
  word_areas = λ area. if is_word_area area then some (λ _. 0) else none;
  bit_areas = λ area. if is_bit_area area then some (λ _. 0) else none;
  closed = false;
}

-- The `n` bytes from index `start` on: `append([]byte(nil), buf[start:start+n]...)`.
unfoldable pub cells : Buffer → ℕ → ℕ → List ℕ
cells buf start zero = []
cells buf start (suc n) = buf start ∷ cells buf (start + 1) n

-- `copy(buf[start:start+n], payload)` copies as many bytes as both slices have.
abbrev pub copy_in : Buffer → ℕ → ℕ → List ℕ → Buffer
copy_in buf start n payload i =
    if leb start i && ltb i (start + min n (length payload))
    then get_or payload (i - start) 0
    else buf i

abbrev pub put_area : AreaMap → ℕ → Buffer → AreaMap
put_area areas area buf a = if a == area then some buf else areas a

-- `buf[start:end]` of a buffer of DM_AREA_SIZE bytes, where `end` has passed the range check.
unfoldable pub read_range : Option Buffer → ℕ → ℕ → Result (List ℕ × ℕ)
unfolding cells
read_range none start end = ok ([], not_supported)
read_range (some buf) start end =
    if ltb dm_area_size end
    then ok ([], address_range_exceeded)
    else (check (leb start end) >> ok (cells buf start (end - start), normal_completion))

unfoldable pub write_range : AreaMap → ℕ → ℕ → ℕ → List ℕ → Result (ℕ × AreaMap)
write_range areas area start end payload = elim (areas area) [
  | none ↦ ok (not_supported, areas)
  | some buf ↦
      if ltb dm_area_size end
      then ok (address_range_exceeded, areas)
      else (check (leb start end)
          >> ok (normal_completion, put_area areas area (copy_in buf start (end - start) payload)))
]

-- The additions and the doubling are those of uint16.
unfoldable pub read_words : Server → ℕ → ℕ → ℕ → Result (List ℕ × ℕ)
unfolding read_range
read_words s area address count =
    read_range (s.word_areas area) address (u16 (address + u16 (count * 2)))

unfoldable pub write_words : Server → ℕ → ℕ → ℕ → List ℕ → Result (ℕ × Server)
unfolding write_range
write_words s area address count payload = do
  (end_code, areas) ←
      write_range s.word_areas area address (u16 (address + u16 (count * 2))) payload
  ok (end_code, record s { word_areas = areas })

unfoldable pub read_bits : Server → ℕ → ℕ → ℕ → ℕ → Result (List ℕ × ℕ)
unfolding read_range
read_bits s area address bit_offset count =
    let start = u16 (address + bit_offset) in
    read_range (s.bit_areas area) start (u16 (start + count))

unfoldable pub write_bits : Server → ℕ → ℕ → ℕ → ℕ → List ℕ → Result (ℕ × Server)
unfolding write_range
write_bits s area address bit_offset count payload = do
  let start = u16 (address + bit_offset)
  (end_code, areas) ← write_range s.bit_areas area start (u16 (start + count)) payload
  ok (end_code, record s { bit_areas = areas })

-- The fields of `time.Now()` that the clock is encoded from.
pub record Time : Type 0 where
  pub year : ℕ
  pub month : ℕ
  pub day : ℕ
  pub hour : ℕ
  pub minute : ℕ
  pub second : ℕ

-- `byte((v/10)<<4 | (v % 10))`: after `v % 100` the two digits do not overlap.
unfoldable pub bcd_byte : ℕ → ℕ
bcd_byte n = let v = n % 100 in bit_or (v / 10 * 16) (v % 10) % 256

unfoldable pub encode_clock : Time → List ℕ
unfolding bcd_byte
encode_clock t =
    bcd_byte (t.year % 100)
    ∷ bcd_byte t.month
    ∷ bcd_byte t.day
    ∷ bcd_byte t.hour
    ∷ bcd_byte t.minute
    ∷ bcd_byte t.second
    ∷ []

-- The inner `switch` of `handler` for the two memory commands. `ic` is the item count.
unfoldable pub handle_memory : Server → Request → MemoryAddress → ℕ → Result (List ℕ × ℕ × Server)
handle_memory s r m ic =
    if is_word_area m.memory_area
    then if r.command_code == memory_area_read
      then (do (found, end_code) ← read_words s m.memory_area m.address ic; ok (found, end_code, s))
      else (do
        payload ← reslice r.body 6 (u16 (6 + u16 (ic * 2)))
        (end_code, s') ← write_words s m.memory_area m.address ic (to_list payload)
        ok ([], end_code, s'))
    else if is_bit_area m.memory_area
    then if r.command_code == memory_area_read
      then (do
        (found, end_code) ← read_bits s m.memory_area m.address m.bit_offset ic
        ok (found, end_code, s))
      else (do
        payload ← reslice r.body 6 (u16 (6 + ic))
        (end_code, s') ← write_bits s m.memory_area m.address m.bit_offset ic (to_list payload)
        ok ([], end_code, s'))
    else ok ([], not_supported, s)

-- The outer `switch`: what is answered, by command code.
unfoldable pub dispatch : Server → Request → Time → Result (List ℕ × ℕ × Server)
unfolding handle_memory encode_clock
dispatch s r now =
    if r.command_code == memory_area_read || r.command_code == memory_area_write
    then (do
      four ← reslice r.body 0 4
      m ← decode_memory_address four
      ic ← u16_at big_endian r.body 4
      handle_memory s r m ic)
    else if r.command_code == clock_read
    then ok (encode_clock now, normal_completion, s)
    else ok ([], not_supported, s)

unfoldable pub handler : Server → Request → Time → Result (Response × Server)
unfolding dispatch
handler s r now = do
  (found, end_code, s') ← dispatch s r now
  ok (
    record {
      header = default_response_header r.header;
      command_code = r.command_code;
      end_code = end_code;
      body = of_list found;
    },
    s',
  )

-- One round of `udpLoop`, and of the loop of `handleTCPConn`: a frame in, a frame out.
unfoldable pub serve : Server → Slice → Time → Result (List ℕ × Server)
serve s frame now = do
  r ← decode_request frame
  (resp, s') ← handler s r now
  ok (encode_response resp, s')
