-- ===== src/Smtp/Response/Lines.antt =====
-- How the client reads the lines of one reply.
use mathlib.Core.List.{append_assoc}
use fsmtp_v.Base.{
  ℕ, zero, suc, ◌≤◌, true, false, List, [], ◌∷◌, ◌++◌, ◌≡◌, ◌≢◌, refl, ap, ◌∙◌, arith, ◌⊎◌, inl,
  inr, length, ◌==◌, if◌then◌else◌, Bool-cases,
}
use fsmtp_v.Base.Text.{Bytes, back, pop_back, find_first_of-none, find_first_of-append}
use fsmtp_v.Base.Numbers.{long, stoi, to_string}
use fsmtp_v.General.Cleanup.{reduce_loop, reduce_whitespace, remove_first_and_last_white}
use fsmtp_v.Smtp.Response.{Service, service_line, build_services, crlf, sub_args_text}
use fsmtp_v.Smtp.Client.{
  Read, got, reply, read_line, read_lines, read_reply, mark_at_3, without_dash, parse_response,
  parse_clean, response_at, parsed, received, receive,
}

-- Three digits in front of a reply.
pub record IsCode (x y z code : ℕ) : Type 0 where
  pub first : x ≢ b' '
  pub second : y ≢ b' '
  pub third : z ≢ b' '
  pub means : stoi (x ∷ y ∷ z ∷ []) ≡ long code

module _ (x y z code : ℕ) (is : IsCode x y z code) where
  reduced :
      (text : Bytes)
      → reduce_loop false (x ∷ y ∷ z ∷ b' ' ∷ text) ≡ x ∷ y ∷ z ∷ b' ' ∷ reduce_loop true text
  unfolding reduce_loop
  reduced text = ground (arith, is.first, is.second, is.third)

  trimmed :
      (text : Bytes)
      → (remove_first_and_last_white (x ∷ y ∷ z ∷ b' ' ∷ text) ≡ x ∷ y ∷ z ∷ [])
        ⊎ ((t : Bytes) × (remove_first_and_last_white (x ∷ y ∷ z ∷ b' ' ∷ text)
              ≡ x ∷ y ∷ z ∷ b' ' ∷ t))
  unfolding remove_first_and_last_white
  trimmed [] = inl (ground (arith, is.first))
  trimmed (u ∷ us) = elim (Bool-cases (back (u ∷ us) == b' ')) [
    | inl e ↦ inr (pop_back (u ∷ us), ground (arith, is.first, e))
    | inr e ↦ inr (u ∷ us, ground (arith, is.first, e))
  ]

  clean-cases :
      (text : Bytes)
      → (reduce_whitespace (x ∷ y ∷ z ∷ b' ' ∷ text) ≡ x ∷ y ∷ z ∷ [])
        ⊎ ((t : Bytes) × (reduce_whitespace (x ∷ y ∷ z ∷ b' ' ∷ text) ≡ x ∷ y ∷ z ∷ b' ' ∷ t))
  unfolding reduce_whitespace
  clean-cases text = rw (reduced text) (trimmed (reduce_loop true text))

  parse_clean-alone : parse_clean (x ∷ y ∷ z ∷ []) ≡ (long code, [])
  unfolding parse_clean response_at
  parse_clean-alone =
      rw
        (
          find_first_of-none b' ' (x ∷ y ∷ z ∷ []) (is.first, (is.second, (is.third, tt))),
          parse_clean,
          is.means,
        )
        refl

  parse_clean-text : (t : Bytes) → parse_clean (x ∷ y ∷ z ∷ b' ' ∷ t) ≡ (long code, t)
  unfolding parse_clean response_at
  parse_clean-text t =
      rw
        (
          find_first_of-append b' ' (x ∷ y ∷ z ∷ []) t (is.first, (is.second, (is.third, tt))),
          parse_clean,
          is.means,
        )
        refl

  parse_response-code :
      (text : Bytes)
      → (args : Bytes) × (parse_response (x ∷ y ∷ z ∷ b' ' ∷ text) ≡ (long code, args))
  unfolding parse_response
  parse_response-code text = elim (clean-cases text) [
    | inl e ↦ ([], ap parse_clean e ∙ parse_clean-alone)
    | inr (t, e) ↦ (t, ap parse_clean e ∙ parse_clean-text t)
  ]

  pub received-code :
      (text : Bytes) (lines rest : List Bytes)
      → read_reply lines ≡ got (x ∷ y ∷ z ∷ b' ' ∷ text) rest
      → (args : Bytes) × (receive lines ≡ reply code args rest)
  unfolding receive received parsed
  received-code text lines rest e =
      let (args, parses) = parse_response-code text in
      (args, ap received e ∙ ap (λ p. parsed p rest) parses)

  -- A line alone.
  read_reply-single :
      (text : Bytes) (rest : List Bytes)
      → read_reply ((x ∷ y ∷ z ∷ b' ' ∷ text) ∷ rest) ≡ got (x ∷ y ∷ z ∷ b' ' ∷ text) rest
  unfolding read_reply read_lines read_line mark_at_3
  read_reply-single text rest = ground arith

  pub receive-single :
      (text : Bytes) (rest : List Bytes)
      → (args : Bytes) × (receive ((x ∷ y ∷ z ∷ b' ' ∷ text) ∷ rest) ≡ reply code args rest)
  receive-single text rest = received-code text _ rest (read_reply-single text rest)

  -- The first line of several.
  pub read_reply-several :
      (text : Bytes) (lines : List Bytes)
      → read_reply ((x ∷ y ∷ z ∷ b'-' ∷ text) ∷ lines)
        ≡ read_lines 399 false (x ∷ y ∷ z ∷ b' ' ∷ text) lines
  unfolding read_reply read_lines read_line mark_at_3 without_dash
  read_reply-several text lines = ground arith

  -- A line behind it.
  read_line-later :
      (raw text : Bytes) (more : Bytes → Read) (lines : List Bytes) (sep : ℕ)
      → read_line false raw (x ∷ y ∷ z ∷ sep ∷ text) more lines
        ≡ (if sep == b' ' then got (raw ++ text) lines else more (raw ++ text))
  unfolding read_line mark_at_3
  read_line-later raw text more lines sep = ground arith

-- The lines of the services.
unfoldable pub service_lines : ℕ → List Service → List Bytes
unfolding service_line
service_lines code [] = []
service_lines code (s ∷ ss) = service_line code s ss ∷ service_lines code ss

-- Lines, with an end behind each.
unfoldable pub wire : List Bytes → Bytes
wire [] = []
wire (line ∷ lines) = line ++ (crlf ++ wire lines)

pub build_services-wire :
    (code : ℕ) (ss : List Service) → build_services code ss ≡ wire (service_lines code ss)
unfolding build_services service_lines wire
build_services-wire code [] = refl
build_services-wire code (s ∷ ss) =
    ap (λ (t : Bytes). service_line code s ss ++ (crlf ++ t)) (build_services-wire code ss)

pub read_services :
    (x y z code : ℕ) (is : IsCode x y z code) (n : ℕ) (raw : Bytes) (s : Service)
    (ss : List Service) (rest : List Bytes)
    → to_string code ≡ x ∷ y ∷ z ∷ []
    → length (s ∷ ss) ≤ n
    → (text : Bytes) × (read_lines n false raw (service_lines code (s ∷ ss) ++ rest)
        ≡ got (raw ++ text) rest)
unfolding read_lines service_lines service_line
read_services x y z code is zero raw s ss rest spelled fits = absurd (omega arith)
read_services x y z code is (suc n) raw s [] rest spelled fits =
    let text = s.name ++ sub_args_text s.sub_args in
    (
      text,
      ap
            (λ (d : Bytes).
              read_line false raw (d ++ b' ' ∷ text) (λ t. read_lines n false t rest) rest)
            spelled
          ∙ read_line-later x y z code is raw text (λ t. read_lines n false t rest) rest b' ',
    )
read_services x y z code is (suc n) raw s (u ∷ us) rest spelled fits =
    let text = s.name ++ sub_args_text s.sub_args in
    let later = service_lines code (u ∷ us) ++ rest in
    let (more, reads) =
      read_services x y z code is n (raw ++ text) u us rest spelled (omega arith) in
    (
      text ++ more,
      ap
            (λ (d : Bytes).
              read_line false raw (d ++ b'-' ∷ text) (λ t. read_lines n false t later) later)
            spelled
          ∙ read_line-later x y z code is raw text (λ t. read_lines n false t later) later b'-'
          ∙ reads
          ∙ ap (λ (t : Bytes). got t rest) (append_assoc raw text more),
    )
