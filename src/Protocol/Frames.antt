-- ===== src/Protocol/Frames.antt =====
-- Requests, responses and memory addresses on the wire (driver.go).
use gofins.Base.{
  ℕ, ◌+◌, ◌*◌, ◌/◌, ◌%◌, ◌≤◌, ◌<◌, ◌≡◌, ◌↔◌, List, ◌++◌, ok, panic, arith, Slice, to_list, length,
  u16_at_lem, put_u16, big_endian,
}
use gofins.Protocol.{
  Header, MemoryAddress, Response, encode_header, encode_memory_address, decode_memory_address,
  decode_header, decode_request, decode_response, encode_response, IsU16,
}
use gofins.Protocol.Headers.{decoded_type, decode_header_total}

-- A big-endian word is read back.
pub u16_lem : (w : ℕ) → IsU16 w → w / 256 % 256 * 256 + w % 256 ≡ w
u16_lem w h = omega arith

-- The four bytes of a memory address are read back, whatever follows them in the buffer.
pub decode_memory_address-encode :
    (m : MemoryAddress) (rest : List ℕ)
    → IsU16 m.address
    → decode_memory_address (record { elems = encode_memory_address m ++ rest; len = 4 }) ≡ ok m
unfolding decode_memory_address encode_memory_address
decode_memory_address-encode m rest h = ground (arith, u16_lem m.address h)

pub decode_request_frame :
    (h : Header) (code : ℕ) (body stale : List ℕ)
    → IsU16 code
    → decode_request (record {
      elems = encode_header h ++ (put_u16 big_endian code ++ (body ++ stale));
      len = 12 + length body;
    })
      ≡ ok (record {
        header = record h { message_type = decoded_type h };
        command_code = code;
        body = record { elems = body ++ stale; len = length body };
      })
unfolding decode_request decode_header encode_header
decode_request_frame h code body stale hc = ground (arith, u16_lem code hc)

pub decode_response-encode_response :
    (r : Response) (stale : List ℕ)
    → IsU16 r.command_code
    → IsU16 r.end_code
    → decode_response
        (record { elems = encode_response r ++ stale; len = length (encode_response r) })
      ≡ ok (record {
        header = record (r.header) { message_type = decoded_type r.header };
        command_code = r.command_code;
        end_code = r.end_code;
        body = record { elems = to_list r.body ++ stale; len = length (to_list r.body) };
      })
unfolding decode_response decode_header encode_response
decode_response-encode_response r stale hc he =
    ground (arith, u16_lem r.command_code hc, u16_lem r.end_code he)

-- In a buffer of twelve bytes or more, `decodeRequest` panics exactly on a datagram shorter than
-- twelve bytes, the length of a header and a command code.
pub decode_request_panic :
    (s : Slice) → 12 ≤ length s.elems → (decode_request s ≡ panic) ↔ (s.len < 12)
unfolding decode_request
decode_request_panic s h =
    let header =
      decode_header_total (record { elems = s.elems; len = 10 }) (omega arith) (omega arith) in
    let code = u16_at_lem big_endian s 10 (omega arith) in
    (λ e. ground (arith, header, code), λ p. ground (arith, header, code))
