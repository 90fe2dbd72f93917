-- ===== src/Imap/Command.antt =====
-- lib/imap/IMAPCommand.src.cc: a line of the client as a command.
pub mod Total
pub mod Types
use fsmtp_v.Base.{
  ℕ, zero, suc, ◌+◌, Bool, true, false, List, [], ◌∷◌, ◌++◌, Option, none, some, ◌==◌,
  if◌then◌else◌, map, take, drop, length,
}
use fsmtp_v.Base.Text.{Bytes, codes, beq, find_first_of, front, erase_front, tolower}
use fsmtp_v.Base.Numbers.{to_string}
use fsmtp_v.General.Cleanup.{reduce_whitespace, remove_first_and_last_white}
use fsmtp_v.Imap.Lexer.{Lexed, tokens, invalid_char, lex}
use fsmtp_v.Imap.Lexer
use fsmtp_v.Imap.Parser.{Arguments, empty, Parsed, ok, syntax, not_implemented}
use fsmtp_v.Imap.Parser

pub data CommandType : Type 0 where
  starttls authenticate login logout capability : CommandType
  select examine create delete rename subscribe unsubscribe list lsub status append : CommandType
  check close expunge search fetch store copy uid : CommandType
  unknown noop : CommandType

pub record Command : Type 0 where
  pub index : Bytes
  pub command_type : CommandType
  pub args : Arguments

-- How `parse` ends: with the command; with an `IMAPBad`, when `c_Index` and the message are used; with
-- an exception that is no `IMAPBad`; or with undefined behaviour.
pub data Read : Type 0 where
  command : Command → Read
  bad : Bytes → Bytes → Read
  uncaught : Read
  undefined : Read
  out_of_fuel : Read

-- The words that `getType` compares a command with, by its first letter.
abbrev words : ℕ → List (Bytes × CommandType)
words c =
    if c == b'n'
    then (codes "noop", noop) ∷ []
    else if c == b's'
    then (codes "starttls", starttls)
      ∷ (codes "select", select)
      ∷ (codes "status", status)
      ∷ (codes "store", store)
      ∷ (codes "subscribe", subscribe)
      ∷ []
    else if c == b'a'
    then (codes "authenticate", authenticate) ∷ (codes "append", append) ∷ []
    else if c == b'l'
    then (codes "login", login)
      ∷ (codes "list", list)
      ∷ (codes "lsub", lsub)
      ∷ (codes "logout", logout)
      ∷ []
    else if c == b'e'
    then (codes "examine", examine) ∷ []
    else if c == b'c'
    then (codes "create", create)
      ∷ (codes "check", check)
      ∷ (codes "close", close)
      ∷ (codes "copy", copy)
      ∷ (codes "capability", capability)
      ∷ []
    else if c == b'd'
    then (codes "delete", delete) ∷ []
    else if c == b'u'
    then (codes "unsubscribe", unsubscribe) ∷ (codes "uid", uid) ∷ []
    else if c == b'f'
    then (codes "fetch", fetch) ∷ []
    else []

unfoldable pub find_word : Bytes → List (Bytes × CommandType) → CommandType
find_word s [] = unknown
find_word s ((w, t) ∷ ws) = let rest = find_word s ws in if beq s w then t else rest

unfoldable pub type_of : Bytes → CommandType
unfolding find_word
type_of s = find_word s (words (front s))

unfoldable pub get_type : Bytes → CommandType
unfolding type_of
get_type s = type_of (map tolower s)

-- `what()` of a `SyntaxException`, as `parseArguments` passes it on.
unfoldable pub syntax_message : ℕ → Bytes → Bytes
syntax_message i e = codes "Syntax error: ERR [token: " ++ to_string i ++ codes "]: " ++ e

unfoldable pub with_arguments : Bytes → CommandType → Parsed Arguments → Read
unfolding syntax_message
with_arguments index t (ok args) = command (record { index = index; command_type = t; args = args })
with_arguments index t (syntax i e) = bad index (syntax_message i e)
with_arguments index t not_implemented = uncaught
with_arguments index t Parser.undefined = undefined
with_arguments index t Parser.out_of_fuel = out_of_fuel

-- `parseArguments`. No character is invalid for the lexer, so the position that its exception would
-- have is left out.
unfoldable pub with_tokens : Bytes → CommandType → Lexed → Read
unfolding with_arguments
with_tokens index t (tokens ts) = with_arguments index t (Parser.parse ts)
with_tokens index t invalid_char = bad index (codes "Syntax error: Invalid char")
with_tokens index t Lexer.out_of_range = uncaught
with_tokens index t Lexer.out_of_fuel = out_of_fuel

unfoldable pub parse_arguments : Bytes → CommandType → Bytes → Read
unfolding with_tokens
parse_arguments index t raw = with_tokens index t (lex raw)

-- The arguments are read unless they are empty.
unfoldable pub with_rest : Bytes → CommandType → Bytes → Read
unfolding parse_arguments
with_rest index t [] = command (record { index = index; command_type = t; args = empty })
with_rest index t (c ∷ arguments) = parse_arguments index t (c ∷ arguments)

-- From the type of the command on, with what stands behind its word.
unfoldable pub parse_type : Bytes → CommandType → Bytes → Read
unfolding with_rest
parse_type index unknown behind =
    bad index (codes "[CLIENTBUG] Command is not an valid IMAP command")
parse_type index t behind =
    with_rest index t (if front behind == b' ' then erase_front behind else behind)

-- `commandEndIndex`.
unfoldable pub command_end : Bytes → ℕ
command_end other = elim (find_first_of b' ' other) [ none ↦ length other | some i ↦ i ]

-- The word of the command and the rest of the line.
unfoldable pub parse_word : Bytes → Bytes → Read
unfolding parse_type get_type command_end
parse_word index other =
    parse_type index (get_type (take (command_end other) other)) (drop (command_end other) other)

-- The tag, by the index of the first space.
unfoldable pub parse_tag : Bytes → Option ℕ → Read
unfolding parse_word
parse_tag clean none =
    let index : Bytes = elim clean [ [] ↦ codes "*" | c ∷ rest ↦ c ∷ rest ] in
    bad index (codes "[CLIENTBUG] Command has no tag set")
parse_tag clean (some i) =
    let rest = drop i clean in
    parse_word (take i clean) (if front rest == b' ' then erase_front rest else rest)

unfoldable pub parse : Bytes → Read
unfolding parse_tag
parse raw =
    let clean = remove_first_and_last_white (reduce_whitespace raw) in
    parse_tag clean (find_first_of b' ' clean)
