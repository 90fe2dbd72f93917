-- ===== src/Smtp/Command/RoundTrip.antt =====
-- What the client builds, the server parses back.
use mathlib.Core.List.{append-nil, append_assoc, map-append}
use fsmtp_v.Base.{
  ℕ, false, List, [], ◌∷◌, ◌++◌, map, ◌≡◌, ◌≢◌, refl, ap, ◌∙◌, sym, arith, length, All, All-append,
  Bool-cases, inl, inr,
}
use fsmtp_v.Base.Text.{
  drop-suc-length, Bytes, tolower, Avoids, find_first_of-append, find_first_of-none, take-length,
}
use fsmtp_v.General.Cleanup.Words.{
  IsWord, spaced, joined, reduce_whitespace-spaced, reduce_whitespace-joined, getlines-joined,
}
use fsmtp_v.Smtp.Command.{
  ClientCommandType, helo, mail_from, rcpt_to, unknown, ClientCommand, command_type_of,
  arguments_of, parse, keyword, takes_colon, build_arguments, build_line, parse_at,
}

command_type_of-keyword : (t : ClientCommandType) → command_type_of (map tolower (keyword t)) ≡ t
unfolding command_type_of keyword tolower
command_type_of-keyword helo = refl
command_type_of-keyword _ = refl

build_arguments-spaced : (args : List Bytes) → build_arguments args ≡ spaced args
unfolding build_arguments spaced
build_arguments-spaced [] = refl
build_arguments-spaced (a ∷ args) = rw (build_arguments-spaced args)

arguments_of-spaced : (args : List Bytes) → All IsWord args → arguments_of (spaced args) ≡ args
unfolding arguments_of
arguments_of-spaced args h = rw (reduce_whitespace-spaced args h) (getlines-joined args h)

arguments_of-joined : (args : List Bytes) → All IsWord args → arguments_of (joined args) ≡ args
unfolding arguments_of
arguments_of-joined args h = rw (reduce_whitespace-joined args h) (getlines-joined args h)

abbrev command_of : Bytes → List Bytes → ClientCommand
command_of k args = record { command_type = command_type_of (map tolower k); arguments = args }

parse_at-append :
    (k : Bytes) (c : ℕ) (rest : Bytes)
    → parse_at (k ++ c ∷ rest) (length k) ≡ command_of k (arguments_of rest)
parse_at-append k c rest = rw (take-length k (c ∷ rest), drop-suc-length k c rest)

parse-colon :
    (k rest : Bytes) → Avoids b':' k → parse (k ++ b':' ∷ rest) ≡ command_of k (arguments_of rest)
unfolding parse
parse-colon k rest h = rw (find_first_of-append b':' k rest h, parse) (parse_at-append k b':' rest)

parse_space :
    (k rest : Bytes)
    → Avoids b':' (k ++ b' ' ∷ rest)
    → Avoids b' ' k
    → parse (k ++ b' ' ∷ rest) ≡ command_of k (arguments_of rest)
unfolding parse
parse_space k rest h h' =
    rw (find_first_of-none b':' _ h, find_first_of-append b' ' k rest h', parse)
      (parse_at-append k b' ' rest)

parse_alone : (k : Bytes) → Avoids b':' k → Avoids b' ' k → parse k ≡ command_of k []
unfolding parse
parse_alone k h h' = rw (find_first_of-none b':' k h, find_first_of-none b' ' k h', parse)

keyword-Avoids_colon : (t : ClientCommandType) → Avoids b':' (keyword t)
unfolding keyword
keyword-Avoids_colon helo = omega arith
keyword-Avoids_colon _ = omega arith

keyword-Avoids_space : (t : ClientCommandType) → takes_colon t ≡ false → Avoids b' ' (keyword t)
unfolding keyword
keyword-Avoids_space mail_from h = cc
keyword-Avoids_space rcpt_to h = cc
keyword-Avoids_space _ h = omega arith

spaced-Avoids : (args : List Bytes) → All (Avoids b':') args → Avoids b':' (spaced args)
unfolding spaced
spaced-Avoids [] h = tt
spaced-Avoids (a ∷ args) h =
    (omega arith, All-append _ a (spaced args) h.0 (spaced-Avoids args h.1))

arguments_of_words :
    (v : Bytes) (args : List Bytes)
    → All IsWord (v ∷ args)
    → arguments_of (v ++ spaced args) ≡ v ∷ args
unfolding joined
arguments_of_words v args w = arguments_of-joined (v ∷ args) w

parse-words :
    (k : Bytes) (args : List Bytes)
    → Avoids b':' k
    → Avoids b' ' k
    → All IsWord args
    → All (Avoids b':') args
    → parse (k ++ spaced args) ≡ command_of k args
unfolding spaced
parse-words k [] h h' w a = rw append-nil (parse_alone k h h')
parse-words k (v ∷ args) h h' w a =
    parse_space k (v ++ spaced args)
      (All-append _ k _ h (omega arith, All-append _ v _ a.0 (spaced-Avoids args a.1))) h'
    ∙ ap (command_of k) (arguments_of_words v args w)

-- Parsing what `build` writes gives the command back, for every command type, whatever words it has
-- as arguments. Where no colon follows the keyword, the arguments must hold no colon either.
pub parse-build_line :
    (c : ClientCommand)
    → All IsWord c.arguments
    → (takes_colon c.command_type ≡ false → All (Avoids b':') c.arguments)
    → parse (build_line c) ≡ c
unfolding build_line
parse-build_line c w a = elim (Bool-cases (takes_colon c.command_type)) [
  | inl colon ↦
      rw (colon, build_arguments-spaced c.arguments)
        (parse-colon (keyword c.command_type) (spaced c.arguments) (keyword-Avoids_colon _)
          ∙ rw (command_type_of-keyword, arguments_of-spaced c.arguments w))
  | inr plain ↦
      rw (plain, build_arguments-spaced c.arguments)
        (parse-words (keyword c.command_type) c.arguments (keyword-Avoids_colon _)
            (keyword-Avoids_space _ plain) w (a plain)
          ∙ rw (command_type_of-keyword))
]

early :
    (t : ClientCommandType) (x : Bytes)
    → takes_colon t ≡ false
    → t ≢ unknown
    → command_type_of (map tolower (keyword t) ++ b' ' ∷ x) ≡ unknown
unfolding command_type_of keyword tolower
early mail_from x h n = cc
early rcpt_to x h n = cc
early unknown x h n = absurd (n refl)
early helo x h n = refl
early _ x h n = refl

-- A line is cut at its first colon, wherever that stands. So a keyword that no colon follows, in
-- any case of letters, is not recognised when an argument of the line holds a colon, as the IPv6
-- literal in `EHLO [IPv6:::1]` does: the line is an unknown command.
pub parse_early_colon :
    (t : ClientCommandType) (k arg rest : Bytes)
    → map tolower k ≡ map tolower (keyword t)
    → takes_colon t ≡ false
    → t ≢ unknown
    → Avoids b':' k
    → Avoids b':' arg
    → (parse (k ++ b' ' ∷ (arg ++ b':' ∷ rest))).command_type ≡ unknown
unfolding tolower
parse_early_colon t k arg rest e h n a b =
    ap (λ c. c.command_type)
      (ap parse (sym (append_assoc k (b' ' ∷ arg) (b':' ∷ rest)))
        ∙ parse-colon (k ++ b' ' ∷ arg) rest (All-append _ k _ a (omega arith, b)))
    ∙ rw (map-append, e) (early t (map tolower arg) h n)
