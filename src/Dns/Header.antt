-- ===== src/Dns/Header.antt =====
-- lib/dns/DNSHeader.src.cc: the header of a DNS packet, its bit fields in the bytes 2 and 3, and its
-- counters in network byte order. A buffer is a list of bytes; a byte outside of it reads as zero.
pub mod Fields
pub mod Counters
pub mod Codes
use fsmtp_v.Base.{
  ℕ, Bool, true, false, not, List, [], ◌∷◌, Option, none, some, ◌+◌, ◌*◌, ◌-◌, ◌/◌, ◌%◌, ◌^◌, ◌==◌,
  if◌then◌else◌, get_or, set, take, drop, ◌++◌, bit_and, bit_or,
}
use fsmtp_v.Smtp.Session.{has_bits}

pub data QueryOpcode : Type 0 where
  op_standard op_inverse op_server_stat_req op_invalid : QueryOpcode

pub data ResponseCode : Type 0 where
  resp_no_err resp_format_err resp_server_failure resp_name_error : ResponseCode
  resp_not_implemented resp_refused resp_invalid : ResponseCode

-- `d_Buffer` with its 768 bytes, and `d_BufferULen`.
pub record DnsHeader : Type 0 where
  pub buffer : List ℕ
  pub length_used : ℕ

abbrev pub byte : DnsHeader → ℕ → ℕ
byte h i = get_or h.buffer i 0

abbrev pub put : DnsHeader → ℕ → ℕ → DnsHeader
put h i v = record h { buffer = set h.buffer i v }

-- `d_Buffer[i] |= mask` and `d_Buffer[i] &= ~mask`, on a byte.
abbrev pub raise : DnsHeader → ℕ → ℕ → DnsHeader
raise h i mask = put h i (bit_or (byte h i) mask)

abbrev pub lower : DnsHeader → ℕ → ℕ → DnsHeader
lower h i mask = put h i (bit_and (byte h i) (255 - mask))

abbrev pub write_bit : DnsHeader → ℕ → ℕ → Bool → DnsHeader
write_bit h i mask on = if on then raise h i mask else lower h i mask

abbrev pub read_bit : DnsHeader → ℕ → ℕ → Bool
read_bit h i mask = has_bits (byte h i) mask

-- True is a query.
unfoldable pub get_type : DnsHeader → Bool
get_type h = not (read_bit h 2 128)

unfoldable pub set_type : DnsHeader → Bool → DnsHeader
set_type h is_query = write_bit h 2 128 (not is_query)

unfoldable pub get_aa : DnsHeader → Bool
get_aa h = read_bit h 2 4

unfoldable pub set_aa : DnsHeader → Bool → DnsHeader
set_aa h on = write_bit h 2 4 on

unfoldable pub get_truncated : DnsHeader → Bool
get_truncated h = read_bit h 2 2

unfoldable pub set_truncated : DnsHeader → Bool → DnsHeader
set_truncated h on = write_bit h 2 2 on

unfoldable pub get_recursion_desired : DnsHeader → Bool
get_recursion_desired h = read_bit h 2 1

unfoldable pub set_recursion_desired : DnsHeader → Bool → DnsHeader
set_recursion_desired h on = write_bit h 2 1 on

unfoldable pub get_recursion_available : DnsHeader → Bool
get_recursion_available h = read_bit h 3 128

unfoldable pub set_recursion_available : DnsHeader → Bool → DnsHeader
set_recursion_available h on = write_bit h 3 128 on

abbrev pub opcode_of : ℕ → QueryOpcode
opcode_of n =
    if n == 0
    then op_standard
    else if n == 1
    then op_inverse
    else if n == 2
    then op_server_stat_req
    else op_invalid

unfoldable pub get_opcode : DnsHeader → QueryOpcode
get_opcode h = opcode_of (bit_and (byte h 2) 120 / 8)

abbrev pub write_field : DnsHeader → ℕ → ℕ → ℕ → DnsHeader
write_field h i mask v = put h i (bit_or (bit_and (byte h i) (255 - mask)) v)

-- `none` is the exception for the invalid opcode.
unfoldable pub set_opcode : DnsHeader → QueryOpcode → Option DnsHeader
set_opcode h op_standard = some (write_field h 2 120 0)
set_opcode h op_inverse = some (write_field h 2 120 8)
set_opcode h op_server_stat_req = some (write_field h 2 120 16)
set_opcode h op_invalid = none

abbrev pub response_code_of : ℕ → ResponseCode
response_code_of n =
    if n == 0
    then resp_no_err
    else if n == 1
    then resp_format_err
    else if n == 2
    then resp_server_failure
    else if n == 3
    then resp_name_error
    else if n == 4
    then resp_not_implemented
    else resp_refused

unfoldable pub get_response_code : DnsHeader → ResponseCode
get_response_code h = response_code_of (bit_and (byte h 3) 15)

unfoldable pub response_code_value : ResponseCode → ℕ
response_code_value resp_no_err = 0
response_code_value resp_format_err = 1
response_code_value resp_server_failure = 2
response_code_value resp_name_error = 3
response_code_value resp_not_implemented = 4
response_code_value resp_refused = 5
response_code_value resp_invalid = 6

unfoldable pub set_response_code : DnsHeader → ResponseCode → DnsHeader
set_response_code h code = write_field h 3 15 (response_code_value code)

-- `ntohs` of the two bytes at `i`, and `htons` into them.
unfoldable pub get_count : DnsHeader → ℕ → ℕ
get_count h i = byte h i * 256 + byte h (i + 1)

unfoldable pub set_count : DnsHeader → ℕ → ℕ → DnsHeader
set_count h i c = put (put h i (c / 256 % 256)) (i + 1) (c % 256)

abbrev pub get_qd_count : DnsHeader → ℕ
get_qd_count h = get_count h 4

abbrev pub set_qd_count : DnsHeader → ℕ → DnsHeader
set_qd_count h c = set_count h 4 c

abbrev pub get_as_count : DnsHeader → ℕ
get_as_count h = get_count h 6

abbrev pub set_as_count : DnsHeader → ℕ → DnsHeader
set_as_count h c = set_count h 6 c

abbrev pub get_ns_count : DnsHeader → ℕ
get_ns_count h = get_count h 8

abbrev pub set_ns_count : DnsHeader → ℕ → DnsHeader
set_ns_count h c = set_count h 8 c

abbrev pub get_ar_count : DnsHeader → ℕ
get_ar_count h = get_count h 10

abbrev pub set_ar_count : DnsHeader → ℕ → DnsHeader
set_ar_count h c = set_count h 10 c

abbrev pub get_id : DnsHeader → List ℕ
get_id h = take 2 h.buffer

abbrev pub set_id : DnsHeader → List ℕ → DnsHeader
set_id h id = record h { buffer = take 2 id ++ drop 2 h.buffer }

-- The first `to` bytes of the other header.
unfoldable pub clone : DnsHeader → DnsHeader → ℕ → DnsHeader
clone h other to = record { buffer = take to other.buffer ++ drop to h.buffer; length_used = to }
