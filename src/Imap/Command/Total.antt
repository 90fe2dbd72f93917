-- ===== src/Imap/Command/Total.antt =====
-- Reading a line ends, whatever the line is.
use fsmtp_v.Base.{ℕ, [], ◌∷◌, Option, none, some, ◌≢◌, if◌then◌else◌, take, drop, refl, ◌==◌}
use fsmtp_v.Base.Text.{Bytes, front, erase_front, find_first_of}
use fsmtp_v.General.Cleanup.{reduce_whitespace, remove_first_and_last_white}
use fsmtp_v.Imap.Lexer.{Token, Lexed, tokens, invalid_char, lex}
use fsmtp_v.Imap.Lexer
use fsmtp_v.Imap.Lexer.Spelling.{Lexes, spelled, overflow, lex-Lexes}
use fsmtp_v.Imap.Parser.{Arguments, Parsed, ok, syntax, not_implemented}
use fsmtp_v.Imap.Parser
use fsmtp_v.Imap.Parser.Terminates
use fsmtp_v.Imap.Command.{
  CommandType, unknown, out_of_fuel, with_arguments, with_tokens, with_rest, parse_type, parse_word,
  parse_tag, get_type, command_end, parse,
}

with_arguments-ne :
    (index : Bytes) (t : CommandType) (p : Parsed Arguments)
    → p ≢ Parser.out_of_fuel
    → with_arguments index t p ≢ out_of_fuel
unfolding with_arguments
with_arguments-ne index t (ok args) h e = cc
with_arguments-ne index t (syntax i m) h e = cc
with_arguments-ne index t not_implemented h e = cc
with_arguments-ne index t Parser.undefined h e = cc
with_arguments-ne index t Parser.out_of_fuel h e = h refl

with_tokens-ne :
    (index : Bytes) (t : CommandType) (text : Bytes) (l : Lexed)
    → Lexes text l
    → with_tokens index t l ≢ out_of_fuel
unfolding with_tokens
with_tokens-ne index t text (tokens ts) (spelled s) =
    with_arguments-ne index t (Parser.parse ts) (Terminates.parse-ne-out_of_fuel ts)
with_tokens-ne index t text Lexer.out_of_range (overflow b ds a e h big) = λ e. cc
with_tokens-ne index t text invalid_char h = elim h [ ]
with_tokens-ne index t text Lexer.out_of_fuel h = elim h [ ]

with_rest-ne :
    (index : Bytes) (t : CommandType) (rest : Bytes) → with_rest index t rest ≢ out_of_fuel
unfolding with_rest
with_rest-ne index t [] = λ e. cc
with_rest-ne index t (c ∷ arguments) =
    with_tokens-ne index t (c ∷ arguments) (lex (c ∷ arguments)) (lex-Lexes (c ∷ arguments))

parse_type-ne :
    (index : Bytes) (t : CommandType) (behind : Bytes) → parse_type index t behind ≢ out_of_fuel
unfolding parse_type
parse_type-ne index unknown behind = λ e. cc
parse_type-ne index t behind =
    with_rest-ne index t (if front behind == b' ' then erase_front behind else behind)

parse_word-ne : (index other : Bytes) → parse_word index other ≢ out_of_fuel
unfolding parse_word
parse_word-ne index other =
    parse_type-ne index (get_type (take (command_end other) other)) (drop (command_end other) other)

parse_tag-ne : (clean : Bytes) (o : Option ℕ) → parse_tag clean o ≢ out_of_fuel
unfolding parse_tag
parse_tag-ne clean none = λ e. cc
parse_tag-ne clean (some i) =
    let rest = drop i clean in
    parse_word-ne (take i clean) (if front rest == b' ' then erase_front rest else rest)

-- Every line is read as a command, as a bad one or as a failure: no loop of the reading goes on for
-- ever, and the fuel of the model is enough.
pub parse-ne-out_of_fuel : (raw : Bytes) → parse raw ≢ out_of_fuel
unfolding parse
parse-ne-out_of_fuel raw =
    let clean = remove_first_and_last_white (reduce_whitespace raw) in
    parse_tag-ne clean (find_first_of b' ' clean)
