-- ===== src/Protocol.antt =====
-- The FINS frames of header.go, driver.go, address.go, command_code.go and end_code.go: headers,
-- memory addresses, the commands that the client sends, requests and responses.
pub mod Headers
pub mod Frames
use Prim.Native.Nat.{bit_and, bit_or}
use gofins.Base.{
  ℕ, ◌+◌, ◌*◌, ◌/◌, ◌%◌, ◌^◌, ◌<◌, Bool, true, false, not, List, [], ◌∷◌, ◌++◌, Result, ok, err,
  panic, ◌>>=◌, Slice, to_list, index, reslice, tail_from, u16_at, put_u16, big_endian, ◌==◌,
  if◌then◌else◌,
}

abbrev pub IsByte : ℕ → Type 0
IsByte b = b < 256

abbrev pub IsU16 : ℕ → Type 0
IsU16 w = w < 65536

pub record FinsAddress : Type 0 where
  pub network : ℕ
  pub node : ℕ
  pub unit : ℕ

pub record Header : Type 0 where
  pub message_type : ℕ
  pub response_required : Bool
  pub src : FinsAddress
  pub dst : FinsAddress
  pub service_id : ℕ
  pub gateway_count : ℕ

-- Two of the command codes, and the end codes that the modelled code writes or tests.
abbrev pub message_type_command : ℕ
message_type_command = 0

abbrev pub message_type_response : ℕ
message_type_response = 1

abbrev pub memory_area_read : ℕ
memory_area_read = 0x0101

abbrev pub memory_area_write : ℕ
memory_area_write = 0x0102

abbrev pub clock_read : ℕ
clock_read = 0x0701

abbrev pub normal_completion : ℕ
normal_completion = 0x0000

abbrev pub not_supported : ℕ
not_supported = 0x0402

abbrev pub address_range_exceeded : ℕ
address_range_exceeded = 0x1104

pub default_header : ℕ → Bool → FinsAddress → FinsAddress → ℕ → Header
default_header message_type response_required src dst service_id = record {
  message_type = message_type;
  response_required = response_required;
  src = src;
  dst = dst;
  service_id = service_id;
  gateway_count = 2;
}

unfoldable pub default_command_header : FinsAddress → FinsAddress → ℕ → Header
unfolding default_header
default_command_header src dst service_id =
    default_header message_type_command true src dst service_id

unfoldable pub default_response_header : Header → Header
unfolding default_header
default_response_header h = default_header message_type_response false h.dst h.src h.service_id

-- `1 << icfBridgesBit`, and the two flags or-ed in.
abbrev icf_byte : Header → ℕ
icf_byte h =
    let icf = 2 ^ 7 in
    let icf = if h.response_required then icf else bit_or icf (2 ^ 0) in
    if h.message_type == message_type_response then bit_or icf (2 ^ 6) else icf

unfoldable pub encode_header : Header → List ℕ
encode_header h =
    icf_byte h
    ∷ 0x00
    ∷ h.gateway_count
    ∷ h.dst.network
    ∷ h.dst.node
    ∷ h.dst.unit
    ∷ h.src.network
    ∷ h.src.node
    ∷ h.src.unit
    ∷ h.service_id
    ∷ []

-- In Go `&` and `<<` bind equally and to the left: `icf&1<<n` is `(icf & 1) << n`, a byte.
abbrev pub icf_test : ℕ → ℕ → ℕ
icf_test icf n = bit_and icf 1 * 2 ^ n % 256

unfoldable pub decode_header : Slice → Result Header
decode_header bytes = do
  icf ← index bytes 0
  gateway_count ← index bytes 2
  dst_network ← index bytes 3
  dst_node ← index bytes 4
  dst_unit ← index bytes 5
  src_network ← index bytes 6
  src_node ← index bytes 7
  src_unit ← index bytes 8
  service_id ← index bytes 9
  ok (record {
    message_type = if icf_test icf 6 == 0 then message_type_command else message_type_response;
    response_required = icf_test icf 0 == 0;
    src = record { network = src_network; node = src_node; unit = src_unit };
    dst = record { network = dst_network; node = dst_node; unit = dst_unit };
    service_id = service_id;
    gateway_count = gateway_count;
  })

pub record MemoryAddress : Type 0 where
  pub memory_area : ℕ
  pub address : ℕ
  pub bit_offset : ℕ

unfoldable pub mem_addr_with_bit_offset : ℕ → ℕ → ℕ → MemoryAddress
mem_addr_with_bit_offset area address bit_offset = record {
  memory_area = area;
  address = address;
  bit_offset = bit_offset;
}

unfoldable pub mem_addr : ℕ → ℕ → MemoryAddress
unfolding mem_addr_with_bit_offset
mem_addr area address = mem_addr_with_bit_offset area address 0

unfoldable pub encode_memory_address : MemoryAddress → List ℕ
encode_memory_address m = m.memory_area ∷ (put_u16 big_endian m.address ++ (m.bit_offset ∷ []))

unfoldable pub decode_memory_address : Slice → Result MemoryAddress
decode_memory_address bytes = do
  area ← index bytes 0
  address ← u16_at big_endian bytes 1
  bit_offset ← index bytes 3
  ok (record { memory_area = area; address = address; bit_offset = bit_offset })

unfoldable pub read_command : MemoryAddress → ℕ → List ℕ
unfolding encode_memory_address
read_command m item_count =
    put_u16 big_endian memory_area_read
    ++ (encode_memory_address m ++ put_u16 big_endian item_count)

unfoldable pub write_command : MemoryAddress → ℕ → List ℕ → List ℕ
unfolding encode_memory_address
write_command m item_count bytes =
    put_u16 big_endian memory_area_write
    ++ (encode_memory_address m ++ (put_u16 big_endian item_count ++ bytes))

unfoldable pub clock_read_command : List ℕ
clock_read_command = put_u16 big_endian clock_read

pub record Request : Type 0 where
  pub header : Header
  pub command_code : ℕ
  pub body : Slice

pub record Response : Type 0 where
  pub header : Header
  pub command_code : ℕ
  pub end_code : ℕ
  pub body : Slice

unfoldable pub decode_request : Slice → Result Request
decode_request bytes = do
  first ← reslice bytes 0 10
  header ← decode_header first
  command_code ← u16_at big_endian bytes 10
  body ← tail_from bytes 12
  ok (record { header = header; command_code = command_code; body = body })

unfoldable pub decode_response : Slice → Result Response
decode_response bytes = do
  first ← reslice bytes 0 10
  header ← decode_header first
  command_code ← u16_at big_endian bytes 10
  end_code ← u16_at big_endian bytes 12
  body ← tail_from bytes 14
  ok (record { header = header; command_code = command_code; end_code = end_code; body = body })

unfoldable pub encode_response : Response → List ℕ
unfolding encode_header
encode_response r =
    encode_header r.header
    ++ (put_u16 big_endian r.command_code ++ (put_u16 big_endian r.end_code ++ to_list r.body))
