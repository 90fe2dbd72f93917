-- ===== src/Tests/Mail.antt =====
-- Messages with parts, on concrete texts.
use fsmtp_v.Base.{List, [], ◌∷◌, ◌++◌, false, ◌≡◌, ◌≢◌, refl}
use fsmtp_v.Base.Text.{Bytes, codes, beq, find_first_of, getlines}
use fsmtp_v.General.Cleanup.{reduce_loop}
use fsmtp_v.Models.EmailAddress.{ok}
use fsmtp_v.Mime.Headers.{parse_headers, join_headers}
use fsmtp_v.Mime.Content.{parse_content_type, multipart_mixed}
use fsmtp_v.Mime.Multipart.{split_multipart_message, boundary_hit}
use fsmtp_v.Mime.Multipart.RoundTrip.{join_sections, split_multipart_message-join_sections}
use fsmtp_v.Mime.Message.{Email, out_of_fuel, parse_mime}
use fsmtp_v.Mime.Message.Terminates.{parse_mime-ne-out_of_fuel}

-- A folded header loses the space at its fold, but behind a semicolon.
join_folded :
    join_headers (
      codes "Subject: one"
      ∷ codes " two"
      ∷ codes "Content-Type: text/html;"
      ∷ codes " charset=x"
      ∷ [])
    ≡ codes "Subject: onetwo" ∷ codes "Content-Type: text/html; charset=x" ∷ []
unfolding join_headers
join_folded = refl

-- A space in front of a key is taken off, and one behind it is kept.
headers_trimmed :
    parse_headers false (codes "Subject : a  b" ∷ [])
    ≡ ok (record { key = codes "Subject "; value = codes "a b" } ∷ [])
unfolding parse_headers find_first_of reduce_loop
headers_trimmed = refl

type_read :
    parse_content_type (codes "multipart/mixed; boundary=\"ab\"; charset=utf-8")
    ≡ ok (multipart_mixed, codes "ab", codes "utf-8")
unfolding parse_content_type find_first_of getlines beq
type_read = refl

abbrev boundary : Bytes
boundary = codes "ab"

abbrev preamble : List Bytes
preamble = codes "This is a message in parts." ∷ []

abbrev parts : List (List Bytes)
parts =
    (codes "Content-Type: text/plain" ∷ [] ∷ codes "one" ∷ [])
    ∷ (codes "--abc" ∷ [] ∷ codes "two" ∷ [])
    ∷ []

split_multipart_message-join_sections_example :
    split_multipart_message boundary (preamble ++ join_sections boundary parts (codes "x" ∷ []))
    ≡ parts
unfolding boundary_hit beq
split_multipart_message-join_sections_example =
    split_multipart_message-join_sections boundary preamble parts (codes "x" ∷ []) (refl, tt)
      ((refl, (refl, (refl, tt))), ((refl, (refl, (refl, tt))), tt))

abbrev blank : Email
blank = record {
  subject = [];
  message_id = [];
  body_sections = [];
  from = [];
  to = [];
  headers = [];
  date = 0;
}

parse_mime-ne-out_of_fuel_example :
    parse_mime (λ date. 0) (codes "Content-Type: multipart/mixed; boundary=a") blank ≢ out_of_fuel
parse_mime-ne-out_of_fuel_example =
    parse_mime-ne-out_of_fuel (λ date. 0) (codes "Content-Type: multipart/mixed; boundary=a") blank
