-- ===== src/Tests/Wire.antt =====
-- Headers, frames and binary-coded decimals at concrete inputs (driver.go).
use gofins.Base.{
  ◌+◌, ◌*◌, ◌^◌, ◌%◌, ◌≡◌, refl, ◌↔◌, true, [], ◌∷◌, ok, err, bcd_overflow, bad_hi_digit, arith,
  Slice, of_list, ltb, if◌then◌else◌,
}
use gofins.Protocol.{
  FinsAddress, Header, Response, default_command_header, default_response_header, decode_header,
  encode_header, read_command, mem_addr,
}
use gofins.Protocol.Headers.{header_slice, decoded_type, decode_header_roundtrip_iff}
use gofins.Bcd.{encode_bcd, decode_bcd, times_ten_plus_catching_overflow}
use gofins.Bcd.Overflow.{times_ten_exact, times_ten_missed}
use gofins.Bcd.RoundTrip.{decode_bcd-encode_bcd}

abbrev client : FinsAddress
client = record { network = 0; node = 2; unit = 0 }

abbrev plc : FinsAddress
plc = record { network = 0; node = 10; unit = 0 }

abbrev command : Header
command = record {
  message_type = 0;
  response_required = true;
  src = client;
  dst = plc;
  service_id = 7;
  gateway_count = 2;
}

-- A response that still asks for a response: its type does not survive.
abbrev odd_response : Header
odd_response = record command { message_type = 1 }

command_is_default : default_command_header client plc 7 ≡ command
unfolding default_command_header
command_is_default = refl

odd_response_decoded : decode_header (header_slice odd_response []) ≡ ok command
unfolding decode_header encode_header
odd_response_decoded = refl

read_frame_bytes :
    read_command (mem_addr 0x82 100) 5 ≡ 0x01 ∷ 0x01 ∷ 0x82 ∷ 0x00 ∷ 0x64 ∷ 0x00 ∷ 0x00 ∷ 0x05 ∷ []
unfolding read_command mem_addr
read_frame_bytes = refl

decode_header_roundtrip_iff_example :
    (decode_header (header_slice odd_response (1 ∷ [])) ≡ ok odd_response)
    ↔ (odd_response.message_type ≡ decoded_type odd_response)
decode_header_roundtrip_iff_example = decode_header_roundtrip_iff odd_response (1 ∷ [])

abbrev answer : Response
answer = record {
  header = default_response_header command;
  command_code = 0x0101;
  end_code = 0x1104;
  body = of_list (1 ∷ 2 ∷ []);
}

abbrev short_datagram : Slice
short_datagram = record {
  elems = 128 ∷ 0 ∷ 2 ∷ 0 ∷ 10 ∷ 0 ∷ 0 ∷ 2 ∷ 0 ∷ 7 ∷ 1 ∷ 1 ∷ 0 ∷ [];
  len = 11;
}

bcd_of_odd : encode_bcd 12345 ≡ 0x12 ∷ 0x34 ∷ 0x5f ∷ []
unfolding encode_bcd
bcd_of_odd = refl

bcd_bad_digit : decode_bcd (0x12 ∷ 0xa4 ∷ []) ≡ err (bad_hi_digit 10)
unfolding decode_bcd times_ten_plus_catching_overflow
bcd_bad_digit = refl

decode_bcd-encode_bcd_example :
    decode_bcd (encode_bcd 18446744073709551615) ≡ ok 18446744073709551615
decode_bcd-encode_bcd_example = decode_bcd-encode_bcd 18446744073709551615 (omega arith)

times_ten_exact_example : times_ten_plus_catching_overflow 2000000000000000000 7 ≡ (
    if ltb (10 * 2000000000000000000 + 7) (2 ^ 64)
    then ok (10 * 2000000000000000000 + 7)
    else err bcd_overflow)
times_ten_exact_example = times_ten_exact 2000000000000000000 7 (omega arith) (omega arith)

times_ten_missed_example :
    times_ten_plus_catching_overflow 7378697629483820647 3
    ≡ ok ((10 * 7378697629483820647 + 3) % 2 ^ 64)
times_ten_missed_example =
    times_ten_missed 7378697629483820647 3 (omega arith) (omega arith) (omega arith) (omega arith)

-- Twenty digits that do not fit 64 bits decode to a small number.
overflow_unnoticed :
    decode_bcd (0x73 ∷ 0x78 ∷ 0x69 ∷ 0x76 ∷ 0x29 ∷ 0x48 ∷ 0x38 ∷ 0x20 ∷ 0x64 ∷ 0x73 ∷ []) ≡ ok 9
unfolding decode_bcd times_ten_plus_catching_overflow
overflow_unnoticed = refl
