-- ===== src/Server/Handling.antt =====
-- `handler` of server.go, on every kind of request.
use gofins.Base.{
  ℕ, ◌+◌, ◌-◌, ◌*◌, ◌≤◌, ◌<◌, ◌≡◌, ◌≢◌, ◌⊎◌, inl, inr, true, List, [], ◌++◌, Result, ok, panic,
  ◌>>=◌, arith, length, take, put_u16, Result-cases, big_endian, leb, le→leb,
}
use gofins.Area.{is_word_area}
use gofins.Protocol.{
  MemoryAddress, Request, Response, IsU16, default_response_header, encode_memory_address,
  memory_area_read, memory_area_write, decode_memory_address,
}
use gofins.Protocol.Frames.{u16_lem}
use gofins.Server.{Server, Time, u16, read_words, write_words, handle_memory, dispatch, handler}

-- The data of a memory command: a memory address, an item count, and what follows.
abbrev pub memory_body : MemoryAddress → ℕ → List ℕ → List ℕ
memory_body m ic rest = encode_memory_address m ++ (put_u16 big_endian ic ++ rest)

-- Both memory commands decode their address and item count, whatever the slice's length.
pub dispatch_memory :
    (s : Server) (r : Request) (now : Time) (m : MemoryAddress) (ic : ℕ) (rest : List ℕ)
    → (r.command_code ≡ memory_area_read) ⊎ (r.command_code ≡ memory_area_write)
    → r.body.elems ≡ memory_body m ic rest
    → IsU16 m.address
    → IsU16 ic
    → dispatch s r now ≡ handle_memory s r m ic
unfolding dispatch encode_memory_address decode_memory_address
dispatch_memory s r now m ic rest code e ha hi = ground (arith, u16_lem m.address ha, u16_lem ic hi)

abbrev reply_written : Result (ℕ × Server) → Result (List ℕ × ℕ × Server)
reply_written done = do (end_code, s') ← done; ok ([], end_code, s')

-- Writing words: the handler writes the first `ic * 2` bytes of the slice's array behind the item count, also where
-- these lie past the slice's length.
pub handle_write_words :
    (s : Server) (r : Request) (m : MemoryAddress) (ic : ℕ) (rest : List ℕ)
    → r.command_code ≡ memory_area_write
    → r.body.elems ≡ memory_body m ic rest
    → is_word_area m.memory_area ≡ true
    → 6 + ic * 2 < 65536
    → ic * 2 ≤ length rest
    → handle_memory s r m ic
      ≡ reply_written (write_words s m.memory_area m.address ic (take (ic * 2) rest))
unfolding handle_memory encode_memory_address
handle_write_words s r m ic rest code e area small enough =
    let end : u16 (6 + u16 (ic * 2)) ≡ 6 + ic * 2 = omega arith in
    let room : leb (6 + ic * 2) (length (memory_body m ic rest)) ≡ true = ground arith in
    let d : 6 + ic * 2 - 6 ≡ ic * 2 = omega arith in
    rw (area, code, e, end, le→leb 6 (6 + ic * 2) (omega arith), room, d)

-- Writing words panics where the array behind the slice is shorter than the item count asks for.
pub handle_write_words_short :
    (s : Server) (r : Request) (m : MemoryAddress) (ic : ℕ) (rest : List ℕ)
    → r.command_code ≡ memory_area_write
    → r.body.elems ≡ memory_body m ic rest
    → is_word_area m.memory_area ≡ true
    → 6 + ic * 2 < 65536
    → length rest < ic * 2
    → handle_memory s r m ic ≡ panic
unfolding handle_memory encode_memory_address
handle_write_words_short s r m ic rest code e area small short = ground arith

pub handle_read_words :
    (s : Server) (r : Request) (m : MemoryAddress) (ic : ℕ) {found : List ℕ} {end_code : ℕ}
    → r.command_code ≡ memory_area_read
    → is_word_area m.memory_area ≡ true
    → read_words s m.memory_area m.address ic ≡ ok (found, end_code)
    → handle_memory s r m ic ≡ ok (found, end_code, s)
unfolding handle_memory
handle_read_words s r m ic code area h = ground arith

-- Every answer goes back to the sender: its header is the request's default response header, and
-- it repeats the command code.
pub handler_mirrors :
    (s : Server) (r : Request) (now : Time) {resp : Response} {s' : Server}
    → handler s r now ≡ ok (resp, s')
    → (resp.header ≡ default_response_header r.header) × (resp.command_code ≡ r.command_code)
unfolding handler
handler_mirrors s r now h = elim (Result-cases (dispatch s r now)) [
  | inl (a, e) ↦ (ground arith, ground arith)
  | inr bad ↦ ground arith
]

-- A request other than a memory write leaves the simulator as it was.
pub handler_unchanged :
    (s : Server) (r : Request) (now : Time) {resp : Response} {s' : Server}
    → r.command_code ≢ memory_area_write
    → handler s r now ≡ ok (resp, s')
    → s' ≡ s
unfolding handler dispatch handle_memory
handler_unchanged s r now code h = ground arith
