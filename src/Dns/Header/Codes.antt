-- ===== src/Dns/Header/Codes.antt =====
-- The opcode and the response code of the header.
use fsmtp_v.Base.{
  ℕ, Bool, true, ◌/◌, ◌-◌, ◌<◌, ◌≡◌, refl, ap, ◌∙◌, ◌==◌, ==_iff, some, length, bit_and, bit_or,
  holds_below, holds_below-test,
}
use fsmtp_v.Dns.Header.{
  DnsHeader, byte, QueryOpcode, op_standard, op_inverse, op_server_stat_req, op_invalid, get_opcode,
  set_opcode, opcode_of, write_field, ResponseCode, resp_no_err, resp_format_err,
  resp_server_failure, resp_name_error, resp_not_implemented, resp_refused, resp_invalid,
  response_code_of, get_response_code, response_code_value, set_response_code,
}
use fsmtp_v.Dns.Header.Fields.{get_or-set}

-- The field under a mask reads as the value that was written over it.
abbrev keeps_value : ℕ → ℕ → ℕ → Bool
keeps_value mask v x = bit_and (bit_or (bit_and x (255 - mask)) v) mask == v

keeps_value_sound :
    (mask v x : ℕ)
    → holds_below (keeps_value mask v) 256 ≡ true
    → x < 256
    → bit_and (bit_or (bit_and x (255 - mask)) v) mask ≡ v
keeps_value_sound mask v x table small =
    (==_iff _ v).0 (holds_below-test (keeps_value mask v) 256 x small table)

table_120_0 : holds_below (keeps_value 120 0) 256 ≡ true
table_120_0 = refl

table_120_8 : holds_below (keeps_value 120 8) 256 ≡ true
table_120_8 = refl

table_120_16 : holds_below (keeps_value 120 16) 256 ≡ true
table_120_16 = refl

table_15_0 : holds_below (keeps_value 15 0) 256 ≡ true
table_15_0 = refl

table_15_1 : holds_below (keeps_value 15 1) 256 ≡ true
table_15_1 = refl

table_15_2 : holds_below (keeps_value 15 2) 256 ≡ true
table_15_2 = refl

table_15_3 : holds_below (keeps_value 15 3) 256 ≡ true
table_15_3 = refl

table_15_4 : holds_below (keeps_value 15 4) 256 ≡ true
table_15_4 = refl

table_15_5 : holds_below (keeps_value 15 5) 256 ≡ true
table_15_5 = refl

table_15_6 : holds_below (keeps_value 15 6) 256 ≡ true
table_15_6 = refl

written :
    (h : DnsHeader) (i mask v : ℕ)
    → i < length h.buffer
    → byte h i < 256
    → holds_below (keeps_value mask v) 256 ≡ true
    → bit_and (byte (write_field h i mask v) i) mask ≡ v
written h i mask v bound small table =
    ap (λ b. bit_and b mask)
      (get_or-set h.buffer i (bit_or (bit_and (byte h i) (255 - mask)) v) 0 bound)
    ∙ keeps_value_sound mask v (byte h i) table small

some_injective : {A : Type 0} {a b : A} → some a ≡ some b → a ≡ b
some_injective e = cc

-- An opcode that can be set is read back, in a buffer whose byte 2 is a byte.
pub get_opcode-set_opcode :
    (h h' : DnsHeader) (op : QueryOpcode)
    → 2 < length h.buffer
    → byte h 2 < 256
    → set_opcode h op ≡ some h'
    → get_opcode h' ≡ op
unfolding get_opcode set_opcode
get_opcode-set_opcode h h' op_standard bound small e =
    rw (← some_injective e)
      (ap (λ v. opcode_of (v / 8)) (written h 2 120 0 bound small table_120_0))
get_opcode-set_opcode h h' op_inverse bound small e =
    rw (← some_injective e)
      (ap (λ v. opcode_of (v / 8)) (written h 2 120 8 bound small table_120_8))
get_opcode-set_opcode h h' op_server_stat_req bound small e =
    rw (← some_injective e)
      (ap (λ v. opcode_of (v / 8)) (written h 2 120 16 bound small table_120_16))
get_opcode-set_opcode h h' op_invalid bound small e = absurd cc

-- What a response code is read back as: the invalid one is read as refused.
abbrev pub read_as : ResponseCode → ResponseCode
read_as resp_invalid = resp_refused
read_as code = code

value_table :
    (code : ResponseCode) → holds_below (keeps_value 15 (response_code_value code)) 256 ≡ true
unfolding response_code_value
value_table resp_no_err = table_15_0
value_table resp_format_err = table_15_1
value_table resp_server_failure = table_15_2
value_table resp_name_error = table_15_3
value_table resp_not_implemented = table_15_4
value_table resp_refused = table_15_5
value_table resp_invalid = table_15_6

value_read : (code : ResponseCode) → response_code_of (response_code_value code) ≡ read_as code
unfolding response_code_value
value_read resp_no_err = refl
value_read resp_format_err = refl
value_read resp_server_failure = refl
value_read resp_name_error = refl
value_read resp_not_implemented = refl
value_read resp_refused = refl
value_read resp_invalid = refl

-- A response code is read back, in a buffer whose byte 3 is a byte, but for the invalid one, which is
-- read back as refused.
pub get_response_code-set_response_code :
    (h : DnsHeader) (code : ResponseCode)
    → 3 < length h.buffer
    → byte h 3 < 256
    → get_response_code (set_response_code h code) ≡ read_as code
unfolding get_response_code set_response_code
get_response_code-set_response_code h code bound small =
    ap response_code_of (written h 3 15 (response_code_value code) bound small (value_table code))
    ∙ value_read code
