-- ===== src/Mime/Content.antt =====
-- lib/mime/mimev2.src.cc, `parseContentType`, and the names of lib/models/Email.src.cc: what a part of
-- a message holds.
use fsmtp_v.Base.{ℕ, suc, List, [], ◌∷◌, Option, none, some, ◌==◌, if◌then◌else◌, take, drop}
use fsmtp_v.Base.Text.{
  Bytes, codes, beq, find_first_of, front, back, pop_back, erase_front, getlines,
}
use fsmtp_v.Models.EmailAddress.{Attempt, ok, throws}

-- The types that a name is read as; the other ones of the code are made nowhere from a name.
pub data ContentType : Type 0 where
  text_plain text_html multipart_alternative multipart_mixed not_known : ContentType

pub data TransferEncoding : Type 0 where
  eight_bit seven_bit base64 quoted_printable not_known : TransferEncoding

unfoldable pub string_to_content_type : Bytes → ContentType
string_to_content_type raw =
    if beq raw (codes "multipart/alternative")
    then multipart_alternative
    else if beq raw (codes "multipart/mixed")
    then multipart_mixed
    else if beq raw (codes "text/plain")
    then text_plain
    else if beq raw (codes "text/html")
    then text_html
    else ContentType.not_known

unfoldable pub content_type_to_string : ContentType → Bytes
content_type_to_string text_plain = codes "text/plain"
content_type_to_string text_html = codes "text/html"
content_type_to_string multipart_alternative = codes "multipart/alternative"
content_type_to_string multipart_mixed = codes "multipart/mixed"
content_type_to_string ContentType.not_known = codes "application/octet-stream"

unfoldable pub string_to_transfer_encoding : Bytes → TransferEncoding
string_to_transfer_encoding raw =
    if beq raw (codes "7bit")
    then seven_bit
    else if beq raw (codes "8bit")
    then eight_bit
    else if beq raw (codes "base64")
    then base64
    else if beq raw (codes "quoted-printable")
    then quoted_printable
    else TransferEncoding.not_known

unfoldable pub transfer_encoding_to_string : TransferEncoding → Bytes
transfer_encoding_to_string eight_bit = codes "8bit"
transfer_encoding_to_string base64 = codes "base64"
transfer_encoding_to_string seven_bit = codes "7bit"
transfer_encoding_to_string quoted_printable = codes "quoted-printable"
transfer_encoding_to_string TransferEncoding.not_known = codes "text/plain"

-- `splitHeaderBySemicolon`.
unfoldable pub split_header_by_semicolon : Bytes → List Bytes
split_header_by_semicolon raw = getlines b';' raw

abbrev cut_back : ℕ → Bytes → Bytes
cut_back c s = if back s == c then pop_back s else s

abbrev cut_front : ℕ → Bytes → Bytes
cut_front c s = if front s == c then erase_front s else s

-- A space off each end of a key, and a space and then a quote off each end of a value. The last byte
-- of an empty text, which the code reads in front of it, is taken for zero.
unfoldable pub pair_key : Bytes → Bytes
pair_key key = cut_front b' ' (cut_back b' ' key)

unfoldable pub pair_value : Bytes → Bytes
pair_value value = cut_front b'"' (cut_back b'"' (cut_front b' ' (cut_back b' ' value)))

-- A segment as a pair: without `=` it is key and value both, since `npos + 1` is zero; with `=` at
-- its front it is none.
unfoldable pub pair_of : Bytes → Option (Bytes × Bytes)
unfolding pair_key pair_value
pair_of segment = elim (find_first_of b'=' segment) [
  | none ↦ some (pair_key segment, pair_value segment)
  | some sep ↦
      if sep == 0
      then none
      else some (pair_key (take sep segment), pair_value (drop (suc sep) segment))
]

-- `parseHeaderKeyValuePairs`; the map keeps the first pair of a key.
unfoldable pub pairs_of : List Bytes → List (Bytes × Bytes)
unfolding pair_of
pairs_of [] = []
pairs_of (segment ∷ segments) =
    let rest = pairs_of segments in elim (pair_of segment) [ none ↦ rest | some pair ↦ pair ∷ rest ]

unfoldable pub find_pair : Bytes → List (Bytes × Bytes) → Bytes
find_pair key [] = []
find_pair key ((k, v) ∷ pairs) = let rest = find_pair key pairs in if beq key k then v else rest

-- `parseContentType`: the type, the boundary and the charset.
unfoldable pub parse_content_type : Bytes → Attempt (ContentType × Bytes × Bytes)
unfolding split_header_by_semicolon string_to_content_type pairs_of find_pair
parse_content_type raw = elim (split_header_by_semicolon raw) [
  | [] ↦ throws (codes "Invalid content type")
  | first ∷ segments ↦
      let pairs = pairs_of segments in
      ok (
        string_to_content_type first,
        find_pair (codes "boundary") pairs,
        find_pair (codes "charset") pairs,
      )
]
