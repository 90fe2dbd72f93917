-- ===== src/General/Hex.antt =====
-- lib/general/hex.src.cc: hexadecimal texts.
pub mod RoundTrip
use fsmtp_v.Base.{
  ℕ, Bool, List, [], ◌∷◌, ◌++◌, ◌+◌, ◌*◌, ◌-◌, ◌/◌, ◌%◌, ltb, leb, ◌&&◌, if◌then◌else◌, bit_and,
  bit_or,
}
use fsmtp_v.Base.Text.{Bytes}

-- `_reverseDict`: 99 for what is no digit; lower case is none.
unfoldable pub reverse_dict : ℕ → ℕ
reverse_dict c =
    if leb b'0' c && leb c b'9'
    then c - b'0'
    else if leb b'A' c && leb c b'F'
    then c - b'A' + 10
    else 99

-- `_dict`.
unfoldable pub dict : ℕ → ℕ
dict c = if ltb c 10 then b'0' + c else if ltb c 16 then b'A' + (c - 10) else b'0'

-- A byte from the digits of its high and its low half.
unfoldable pub join_digits : ℕ → ℕ → ℕ
join_digits first second =
    bit_or (bit_and (reverse_dict first) 15 * 16 % 256) (bit_and (reverse_dict second) 15)

-- A last digit without a partner is dropped.
unfoldable pub decode : Bytes → Bytes
decode [] = []
decode (a ∷ []) = []
decode (a ∷ b ∷ s) = join_digits a b ∷ decode s

unfoldable pub encode : Bytes → Bytes
encode [] = []
encode (c ∷ s) = dict (bit_and c 15) ∷ dict (bit_and c 240 / 16) ∷ encode s

-- The overload for one octet.
unfoldable pub encode_octet : ℕ → Bytes
encode_octet c = dict (bit_and c 240 / 16) ∷ dict (bit_and c 15) ∷ []
