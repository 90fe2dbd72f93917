-- ===== src/Mime/Message.antt =====
-- lib/mime/mimev2.src.cc, `parseMIME` and `parseMIMERecursive`: a message with its parts. The depth of
-- the parts is bounded by fuel; one more than the number of the lines is enough.
pub mod Terminates
use fsmtp_v.Base.{
  ℕ, zero, suc, Bool, true, false, List, [], ◌∷◌, ◌++◌, Option, none, some, ◌==◌, if◌then◌else◌,
  map, length,
}
use fsmtp_v.Base.Text.{Bytes, codes, beq, tolower}
use fsmtp_v.Models.EmailAddress.{EmailAddress, Attempt, ok, throws}
use fsmtp_v.Models.EmailAddress.Lists.{parse_address_list}
use fsmtp_v.Mime.{get_mime_lines, get_string_from_lines, split_mime_body_and_headers}
use fsmtp_v.Mime.Headers.{MimeHeader, parse_headers}
use fsmtp_v.Mime.Content.{
  ContentType, multipart_alternative, multipart_mixed, TransferEncoding, parse_content_type,
  string_to_transfer_encoding,
}
use fsmtp_v.Mime.Multipart.{split_multipart_message}

-- `EmailBodySection`; an encoding that no header sets is not determined.
pub record BodySection : Type 0 where
  pub content : Bytes
  pub content_type : ContentType
  pub headers : List MimeHeader
  pub index : ℕ
  pub transfer_encoding : Option TransferEncoding

-- The fields of `FullEmail` that the parser writes.
pub record Email : Type 0 where
  pub subject : Bytes
  pub message_id : Bytes
  pub body_sections : List BodySection
  pub from : List EmailAddress
  pub to : List EmailAddress
  pub headers : List MimeHeader
  pub date : ℕ

-- What the loop over the headers of a part has found; `contentType` and `contentTransferEncoding` have
-- no value before.
pub record Part : Type 0 where
  pub content_type : Option ContentType
  pub boundary : Bytes
  pub charset : Bytes
  pub transfer_encoding : Option TransferEncoding

abbrev pub no_part : Part
no_part = record { content_type = none; boundary = []; charset = []; transfer_encoding = none }

-- How parsing ends: `undefined` is an iterator or a content type that was never set.
pub data Outcome : Type 0 where
  parsed : Email → Outcome
  failed : Bytes → Outcome
  undefined : Outcome
  out_of_fuel : Outcome

-- A list of addresses, or the error of one.
unfoldable pub with_addresses :
    Attempt (List EmailAddress) → (List EmailAddress → Email) → Attempt Email
with_addresses (throws what) set = throws what
with_addresses (ok addresses) set = ok (set addresses)

-- `parseMIMEDataFromHeaders`, with the reading of a date, or of the clock, as an argument.
unfoldable pub parse_mime_data : (Bytes → ℕ) → MimeHeader → Email → Attempt Email
unfolding with_addresses
parse_mime_data read_date h email =
    if beq h.key (codes "subject")
    then ok (record email { subject = h.value })
    else if beq h.key (codes "message-id")
    then ok (record email { message_id = h.value })
    else if beq h.key (codes "date")
    then ok (record email { date = read_date h.value })
    else if beq h.key (codes "from")
    then with_addresses (parse_address_list h.value)
        (λ addresses. record email { from = addresses })
    else if beq h.key (codes "to")
    then with_addresses (parse_address_list h.value) (λ addresses. record email { to = addresses })
    else ok email

unfoldable pub set_content_type : Attempt (ContentType × Bytes × Bytes) → Part → Attempt Part
set_content_type (throws what) part = throws what
set_content_type (ok (t, boundary, charset)) part =
    ok (record part { content_type = some t; boundary = boundary; charset = charset })

unfoldable pub read_part : MimeHeader → Part → Attempt Part
unfolding set_content_type
read_part h part =
    if beq h.key (codes "content-type")
    then set_content_type (parse_content_type h.value) part
    else if beq h.key (codes "content-transfer-encoding")
    then ok (record part { transfer_encoding = some (string_to_transfer_encoding h.value) })
    else ok part

-- A key in lower case, as the loop leaves it in the headers.
abbrev pub lower_key : MimeHeader → MimeHeader
lower_key h = record h { key = map tolower h.key }

-- The loop over the headers of round `i`.
unfoldable pub read_headers :
    (Bytes → ℕ) → ℕ → List MimeHeader → Email → Part → Attempt (Email × Part)
unfolding parse_mime_data read_part
read_headers read_date i [] email part = ok (email, part)
read_headers read_date i (h ∷ hs) email part =
    let data_read : Attempt Email =
      if i == 0 then parse_mime_data read_date (lower_key h) email else ok email in
    elim data_read [
      | throws what ↦ throws what
      | ok email' ↦ elim (read_part (lower_key h) part) [
        | throws what ↦ throws what
        | ok part' ↦ read_headers read_date i hs email' part'
      ]
    ]

unfoldable pub then_next : Outcome → (Email → Outcome) → Outcome
then_next (parsed email) next = next email
then_next (failed what) next = failed what
then_next undefined next = undefined
then_next out_of_fuel next = out_of_fuel

-- The parts of a body, in their order, up to the first that does not end well.
unfoldable pub each_section : (List Bytes → Email → Outcome) → List (List Bytes) → Email → Outcome
unfolding then_next
each_section round [] email = parsed email
each_section round (section ∷ sections) email =
    then_next (round section email) (each_section round sections)

-- The switch over the type of a part. `decodeMIMEContent` joins the lines, whatever the encoding is.
unfoldable pub parse_body :
    (List Bytes → Email → Outcome)
    → ℕ
    → List MimeHeader
    → List Bytes
    → Part
    → Email
    → Option ContentType
    → Outcome
unfolding each_section
parse_body round i headers body part email none = undefined
parse_body round i headers body part email (some multipart_alternative) =
    each_section round (split_multipart_message part.boundary body) email
parse_body round i headers body part email (some multipart_mixed) =
    each_section round (split_multipart_message part.boundary body) email
parse_body round i headers body part email (some t) =
    let section : BodySection = record {
      content = get_string_from_lines body;
      content_type = t;
      headers = map lower_key headers;
      index = i;
      transfer_encoding = part.transfer_encoding;
    } in
    parsed (record email { body_sections = email.body_sections ++ section ∷ [] })

unfoldable pub with_part :
    (List Bytes → Email → Outcome)
    → ℕ
    → List MimeHeader
    → List Bytes
    → Attempt (Email × Part)
    → Outcome
unfolding parse_body
with_part round i headers body (throws what) = failed what
with_part round i headers body (ok (email, part)) =
    parse_body round i headers body part email part.content_type

-- The headers that round `i` has read, and the rest of it.
unfoldable pub with_headers :
    (Bytes → ℕ)
    → (List Bytes → Email → Outcome)
    → ℕ
    → List Bytes
    → Attempt (List MimeHeader)
    → Email
    → Outcome
unfolding with_part read_headers
with_headers read_date round i body (throws what) email = failed what
with_headers read_date round i body (ok headers) email =
    let kept : Email = if i == 0 then record email { headers = headers } else email in
    with_part round i headers body (read_headers read_date i headers kept no_part)

unfoldable pub with_split :
    (Bytes → ℕ)
    → (List Bytes → Email → Outcome)
    → ℕ
    → Option (List Bytes × List Bytes)
    → Email
    → Outcome
unfolding with_headers
with_split read_date round i none email = undefined
with_split read_date round i (some (headers, body)) email =
    with_headers read_date round i body (parse_headers false headers) email

-- `parseMIMERecursive`.
unfoldable pub parse_recursive : ℕ → (Bytes → ℕ) → ℕ → List Bytes → Email → Outcome
unfolding with_split
parse_recursive zero read_date i lines email = out_of_fuel
parse_recursive (suc fuel) read_date i lines email =
    with_split read_date (parse_recursive fuel read_date (suc i)) i
      (split_mime_body_and_headers lines) email

unfoldable pub parse_mime : (Bytes → ℕ) → Bytes → Email → Outcome
unfolding parse_recursive
parse_mime read_date raw email =
    let lines = get_mime_lines raw in parse_recursive (suc (length lines)) read_date 0 lines email
