-- ===== src/Protocol/Headers.antt =====
-- Headers on the wire: `encodeHeader` and `decodeHeader` of driver.go.
use gofins.Base.{
  ℕ, ◌≡◌, ◌↔◌, List, ◌++◌, ok, arith, Slice, ◌==◌, if◌then◌else◌, length, get_or, get_elem?_lt, ◌≤◌,
}
use gofins.Protocol.{
  Header, encode_header, decode_header, message_type_command, message_type_response, icf_test,
}

-- The type that a decoded header gets: `decodeHeader` reads it off the response-required bit.
abbrev pub decoded_type : Header → ℕ
decoded_type h = if h.response_required then message_type_command else message_type_response

-- The first ten bytes of a buffer that begins with an encoded header.
abbrev pub header_slice : Header → List ℕ → Slice
header_slice h rest = record { elems = encode_header h ++ rest; len = 10 }

-- Decoding what `encodeHeader` wrote gives the same header but for its message type, whatever
-- follows in the buffer; the type comes back as a command exactly if a response is required.
pub decode_header-encode_header :
    (h : Header) (rest : List ℕ)
    → decode_header (header_slice h rest) ≡ ok (record h { message_type = decoded_type h })
unfolding decode_header encode_header
decode_header-encode_header h rest = ground arith

-- A header survives the wire exactly if its message type agrees with its response-required flag:
-- `icf&1<<icfMessageTypeBit` is `(icf&1)<<icfMessageTypeBit`, which tests the wrong bit.
pub decode_header_roundtrip_iff :
    (h : Header) (rest : List ℕ)
    → (decode_header (header_slice h rest) ≡ ok h) ↔ (h.message_type ≡ decoded_type h)
decode_header_roundtrip_iff h rest = (
  λ e. ground (arith, decode_header-encode_header h rest),
  λ e. ground (arith, decode_header-encode_header h rest),
)

-- The header in the first ten bytes, by position.
abbrev pub header_at : List ℕ → Header
header_at xs =
    let at : ℕ → ℕ = λ i. get_or xs i 0 in
    record {
      message_type = if icf_test (at 0) 6 == 0 then message_type_command else message_type_response;
      response_required = icf_test (at 0) 0 == 0;
      src = record { network = at 6; node = at 7; unit = at 8 };
      dst = record { network = at 3; node = at 4; unit = at 5 };
      service_id = at 9;
      gateway_count = at 2;
    }

pub decode_header_total :
    (s : Slice) → 10 ≤ s.len → s.len ≤ length s.elems → decode_header s ≡ ok (header_at s.elems)
unfolding decode_header
decode_header_total s h k = ground (
  arith,
  get_elem?_lt s.elems 0 0,
  get_elem?_lt s.elems 2 0,
  get_elem?_lt s.elems 3 0,
  get_elem?_lt s.elems 4 0,
  get_elem?_lt s.elems 5 0,
  get_elem?_lt s.elems 6 0,
  get_elem?_lt s.elems 7 0,
  get_elem?_lt s.elems 8 0,
  get_elem?_lt s.elems 9 0,
)
