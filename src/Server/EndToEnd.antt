-- ===== src/Server/EndToEnd.antt =====
-- The client's commands as the simulator serves them, frame by frame (driver.go and server.go).
use gofins.Base.{
  ℕ, ◌+◌, ◌*◌, ◌≤◌, ◌≡◌, refl, ◌∙◌, inl, inr, true, some, List, [], ◌++◌, ok, arith, length,
  length-append, take, take-append, take-append_more, length-take, Slice, put_u16, big_endian,
  of_list,
}
use gofins.Area.{is_word_area}
use gofins.Protocol.{
  Header, MemoryAddress, Request, Response, IsU16, encode_header, encode_memory_address,
  default_response_header, mem_addr, read_command, write_command, encode_response, memory_area_read,
  memory_area_write, normal_completion,
}
use gofins.Protocol.Headers.{decoded_type}
use gofins.Protocol.Frames.{decode_request_frame}
use gofins.Server.{Server, Buffer, Time, dm_area_size, read_words, dispatch, handler, serve}
use gofins.Server.Words.{with_words, write_words_ok}
use gofins.Server.Handling.{memory_body, dispatch_memory, handle_write_words, handle_read_words}

-- A receive buffer that holds a header and a command, and stale bytes behind them.
abbrev pub frame : Header → List ℕ → List ℕ → Slice
frame h command stale = record {
  elems = encode_header h ++ (command ++ stale);
  len = 10 + length command;
}

-- The request that the simulator decodes from it.
abbrev pub decoded : Header → ℕ → List ℕ → List ℕ → Request
decoded h code body stale = record {
  header = record h { message_type = decoded_type h };
  command_code = code;
  body = record { elems = body ++ stale; len = length body };
}

abbrev pub reply : Header → ℕ → ℕ → List ℕ → Response
reply h code end_code found = record {
  header = default_response_header h;
  command_code = code;
  end_code = end_code;
  body = of_list found;
}

-- A round of the server loop, from what the handler's `switch` answers.
serve_answer :
    (s : Server) (h : Header) (code : ℕ) (body stale : List ℕ) (now : Time) {found : List ℕ}
    {end_code : ℕ} {s' : Server}
    → IsU16 code
    → dispatch s (decoded h code body stale) now ≡ ok (found, end_code, s')
    → serve s (frame h (put_u16 big_endian code ++ body) stale) now
      ≡ ok (encode_response (reply h code end_code found), s')
unfolding serve handler default_response_header
serve_answer s h code body stale now c e =
    let size : 10 + length (put_u16 big_endian code ++ body) ≡ 12 + length body = omega arith in
    rw (size, serve, decode_request_frame h code body stale c, e)

-- A `WriteWords` frame of `count` words that fit the area is answered by a normal completion, and
-- its payload is stored.
pub serve_write_words :
    (s : Server) (h : Header) (area address count : ℕ) (payload stale : List ℕ) (now : Time)
    {buf : Buffer}
    → is_word_area area ≡ true
    → s.word_areas area ≡ some buf
    → address + count * 2 ≤ dm_area_size
    → length payload ≡ count * 2
    → serve s (frame h (write_command (mem_addr area address) count payload) stale) now
      ≡ ok (
        encode_response (reply h memory_area_write normal_completion []),
        with_words s area buf address payload,
      )
unfolding write_command mem_addr encode_memory_address
serve_write_words s h area address count payload stale now {buf} w kept fits l =
    serve_answer s h memory_area_write (memory_body m count payload) stale now (omega arith) answer
  where
    m : MemoryAddress
    m = mem_addr area address

    r : Request
    r = decoded h memory_area_write (memory_body m count payload) stale

    enough : count * 2 ≤ length (payload ++ stale)
    enough = omega (arith, length-append payload stale)

    taken : take (count * 2) (payload ++ stale) ≡ payload
    taken = rw (← l) (take-append payload stale)

    answer : dispatch s r now ≡ ok ([], normal_completion, with_words s area buf address payload)
    answer =
        dispatch_memory s r now m count (payload ++ stale) (inr refl) refl (omega arith)
          (omega arith)
        ∙ (handle_write_words s r m count (payload ++ stale) refl refl w (omega arith) enough
            ∙ rw (taken, write_words_ok s area address count payload kept fits l))

-- A `ReadWords` frame is answered by the bytes and the end code that `readWords` returns, and the
-- simulator stays as it is.
pub serve-read_words :
    (s : Server) (h : Header) (area address count : ℕ) (stale : List ℕ) (now : Time)
    {found : List ℕ} {end_code : ℕ}
    → is_word_area area ≡ true
    → IsU16 address
    → IsU16 count
    → read_words s area address count ≡ ok (found, end_code)
    → serve s (frame h (read_command (mem_addr area address) count) stale) now
      ≡ ok (encode_response (reply h memory_area_read end_code found), s)
unfolding read_command mem_addr encode_memory_address
serve-read_words s h area address count stale now w ha hc e =
    serve_answer s h memory_area_read (memory_body m count []) stale now (omega arith) (
      dispatch_memory s r now m count stale (inl refl) refl ha hc
      ∙ handle_read_words s r m count refl w e)
  where
    m : MemoryAddress
    m = mem_addr area address

    r : Request
    r = decoded h memory_area_read (memory_body m count []) stale

-- A `WriteBytes` frame names as many words as it has bytes. On a receive buffer with enough stale
-- bytes behind the frame, the simulator answers with a normal completion, and stores the bytes and
-- then as many stale ones.
pub serve_write_bytes_stale :
    (s : Server) (h : Header) (area address : ℕ) (b stale : List ℕ) (now : Time) {buf : Buffer}
    → is_word_area area ≡ true
    → s.word_areas area ≡ some buf
    → address + length b * 2 ≤ dm_area_size
    → length b ≤ length stale
    → serve s (frame h (write_command (mem_addr area address) (length b) b) stale) now
      ≡ ok (
        encode_response (reply h memory_area_write normal_completion []),
        with_words s area buf address (b ++ take (length b) stale),
      )
unfolding write_command mem_addr encode_memory_address
serve_write_bytes_stale s h area address b stale now {buf} w kept fits more =
    serve_answer s h memory_area_write (memory_body m n b) stale now (omega arith) answer
  where
    n : ℕ
    n = length b

    m : MemoryAddress
    m = mem_addr area address

    r : Request
    r = decoded h memory_area_write (memory_body m n b) stale

    enough : n * 2 ≤ length (b ++ stale)
    enough = omega (arith, length-append b stale)

    taken : take (n * 2) (b ++ stale) ≡ b ++ take n stale
    taken = let e : n * 2 ≡ n + n = omega arith in rw e (take-append_more b stale n)

    size : length (b ++ take n stale) ≡ n * 2
    size = omega (arith, length-append b (take n stale), length-take n stale)

    answer :
        dispatch s r now
        ≡ ok ([], normal_completion, with_words s area buf address (b ++ take n stale))
    answer =
        dispatch_memory s r now m n (b ++ stale) (inr refl) refl (omega arith) (omega arith)
        ∙ (handle_write_words s r m n (b ++ stale) refl refl w (omega arith) enough
            ∙ rw (taken, write_words_ok s area address n (b ++ take n stale) kept fits size))
