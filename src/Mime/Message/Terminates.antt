-- ===== src/Mime/Message/Terminates.antt =====
-- Parsing a message ends: each part is shorter than the body that it stands in.
use fsmtp_v.Base.{
  ℕ, false, zero, suc, ◌≤◌, ◌<◌, List, [], ◌∷◌, Option, none, some, Option-cases, length, ◌≡◌, ◌≢◌,
  inl, inr, refl, arith, ◌==◌, if◌then◌else◌,
}
use fsmtp_v.Base.Text.{Bytes}
use fsmtp_v.Models.EmailAddress.{Attempt, ok, throws}
use fsmtp_v.Mime.{split_mime_body_and_headers, skip_empty, get_mime_lines}
use fsmtp_v.Mime.Headers.{MimeHeader, parse_headers}
use fsmtp_v.Mime.Content.{ContentType, multipart_alternative, multipart_mixed}
use fsmtp_v.Mime.Multipart.{split_multipart_message}
use fsmtp_v.Mime.Multipart.Shorter.{Shorter, split_multipart_message-Shorter}
use fsmtp_v.Mime.Message.{
  Email, Part, no_part, Outcome, parsed, failed, undefined, out_of_fuel, then_next, each_section,
  parse_body, with_part, read_headers, with_headers, with_split, parse_recursive, parse_mime,
}

skip_empty-length :
    (lines body : List Bytes) → skip_empty lines ≡ some body → length body ≤ length lines
unfolding skip_empty
skip_empty-length [] body h = absurd cc
skip_empty-length ([] ∷ lines) body h = omega (arith, skip_empty-length lines body h)
skip_empty-length ((c ∷ line) ∷ lines) body h =
    let same : (c ∷ line) ∷ lines ≡ body = cc in rw (← same) (omega arith)

split-length :
    (lines headers body : List Bytes)
    → split_mime_body_and_headers lines ≡ some (headers, body)
    → length body < length lines
unfolding split_mime_body_and_headers
split-length [] headers body h = absurd cc
split-length ([] ∷ lines) headers body h = elim (Option-cases (skip_empty lines)) [
  | inl e ↦ ground (arith, e, h)
  | inr (found, e) ↦ ground (arith, e, h, skip_empty-length lines found e)
]
split-length ((c ∷ line) ∷ lines) headers body h =
    elim (Option-cases (split_mime_body_and_headers lines)) [
      | inl e ↦ ground (arith, e, h)
      | inr ((hs, found), e) ↦ ground (arith, e, h, split-length lines hs found e)
    ]

-- Ends, on any part shorter than `n`, from any email.
abbrev Ends : ℕ → (List Bytes → Email → Outcome) → Type 0
Ends n round =
    (lines : List Bytes) (email : Email) → length lines < n → round lines email ≢ out_of_fuel

then_next-ne-out_of_fuel :
    (o : Outcome) (next : Email → Outcome)
    → o ≢ out_of_fuel
    → ((email : Email) → next email ≢ out_of_fuel)
    → then_next o next ≢ out_of_fuel
unfolding then_next
then_next-ne-out_of_fuel (parsed email) next h k = k email
then_next-ne-out_of_fuel (failed what) next h k = λ e. cc
then_next-ne-out_of_fuel undefined next h k = λ e. cc
then_next-ne-out_of_fuel out_of_fuel next h k = absurd (h refl)

each_section-ne-out_of_fuel :
    (n : ℕ) (round : List Bytes → Email → Outcome) (sections : List (List Bytes)) (email : Email)
    → Ends n round
    → Shorter n sections
    → each_section round sections email ≢ out_of_fuel
unfolding each_section
each_section-ne-out_of_fuel n round [] email h short = λ e. cc
each_section-ne-out_of_fuel n round (section ∷ sections) email h short =
    then_next-ne-out_of_fuel (round section email) (each_section round sections)
      (h section email (short.0))
      λ email'. each_section-ne-out_of_fuel n round sections email' h (short.1)

parse_body-ne-out_of_fuel :
    (round : List Bytes → Email → Outcome) (i : ℕ) (headers : List MimeHeader) (body : List Bytes)
    (part : Part) (email : Email) (t : Option ContentType)
    → Ends (length body) round
    → parse_body round i headers body part email t ≢ out_of_fuel
unfolding parse_body
parse_body-ne-out_of_fuel round i headers body part email none h = λ e. cc
parse_body-ne-out_of_fuel round i headers body part email (some multipart_alternative) h =
    each_section-ne-out_of_fuel (length body) round (split_multipart_message part.boundary body)
      email h (split_multipart_message-Shorter part.boundary body)
parse_body-ne-out_of_fuel round i headers body part email (some multipart_mixed) h =
    each_section-ne-out_of_fuel (length body) round (split_multipart_message part.boundary body)
      email h (split_multipart_message-Shorter part.boundary body)
parse_body-ne-out_of_fuel round i headers body part email (some t) h = λ e. cc

with_part-ne-out_of_fuel :
    (round : List Bytes → Email → Outcome) (i : ℕ) (headers : List MimeHeader) (body : List Bytes)
    (a : Attempt (Email × Part))
    → Ends (length body) round
    → with_part round i headers body a ≢ out_of_fuel
unfolding with_part
with_part-ne-out_of_fuel round i headers body (throws what) h = λ e. cc
with_part-ne-out_of_fuel round i headers body (ok (email, part)) h =
    parse_body-ne-out_of_fuel round i headers body part email part.content_type h

with_headers-ne-out_of_fuel :
    (read_date : Bytes → ℕ) (round : List Bytes → Email → Outcome) (i : ℕ) (body : List Bytes)
    (a : Attempt (List MimeHeader)) (email : Email)
    → Ends (length body) round
    → with_headers read_date round i body a email ≢ out_of_fuel
unfolding with_headers
with_headers-ne-out_of_fuel read_date round i body (throws what) email h = λ e. cc
with_headers-ne-out_of_fuel read_date round i body (ok headers) email h =
    let kept : Email = if i == 0 then record email { headers = headers } else email in
    with_part-ne-out_of_fuel round i headers body (read_headers read_date i headers kept no_part) h

with_split-ne-out_of_fuel :
    (read_date : Bytes → ℕ) (round : List Bytes → Email → Outcome) (i : ℕ) (lines : List Bytes)
    (o : Option (List Bytes × List Bytes)) (email : Email)
    → split_mime_body_and_headers lines ≡ o
    → ((body : List Bytes) → length body < length lines → Ends (length body) round)
    → with_split read_date round i o email ≢ out_of_fuel
unfolding with_split
with_split-ne-out_of_fuel read_date round i lines none email e h = λ e. cc
with_split-ne-out_of_fuel read_date round i lines (some (headers, body)) email e h =
    with_headers-ne-out_of_fuel read_date round i body (parse_headers false headers) email
      (h body (split-length lines headers body e))

parse_recursive-ne-out_of_fuel :
    (fuel : ℕ) (read_date : Bytes → ℕ) (i : ℕ) (lines : List Bytes) (email : Email)
    → length lines < fuel
    → parse_recursive fuel read_date i lines email ≢ out_of_fuel
unfolding parse_recursive
parse_recursive-ne-out_of_fuel zero read_date i lines email h = absurd (omega (arith, h))
parse_recursive-ne-out_of_fuel (suc fuel) read_date i lines email h =
    with_split-ne-out_of_fuel read_date (parse_recursive fuel read_date (suc i)) i lines
      (split_mime_body_and_headers lines) email refl
      λ body shorter part email' below.
        parse_recursive-ne-out_of_fuel fuel read_date (suc i) part email'
          (omega (arith, h, shorter, below))

-- Parsing any message ends, however its parts are nested.
pub parse_mime-ne-out_of_fuel :
    (read_date : Bytes → ℕ) (raw : Bytes) (email : Email)
    → parse_mime read_date raw email ≢ out_of_fuel
unfolding parse_mime
parse_mime-ne-out_of_fuel read_date raw email =
    parse_recursive-ne-out_of_fuel (suc (length (get_mime_lines raw))) read_date 0
      (get_mime_lines raw) email (omega arith)
