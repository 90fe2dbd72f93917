-- ===== src/Imap/Lexer.antt =====
-- lib/imap/IMAPCommandParser.src.cc, `Token` and `Lexer`: the arguments of a command as tokens. The
-- fuel is spent once for each token; the length of the text is enough.
pub mod Spelling
use fsmtp_v.Base.{
  ℕ, zero, suc, ◌+◌, ◌^◌, Bool, true, false, not, ◌&&◌, ◌||◌, List, [], ◌∷◌, ◌==◌, ltb,
  if◌then◌else◌, length, Option, none, some, ◌++◌,
}
use fsmtp_v.Base.Text.{Bytes, codes}
use fsmtp_v.Base.Numbers.{is_digit, digits_value, to_string}

-- A token: its type, with its text or its number. The names of the types are those of the code, where
-- an opening parenthesis is `TT_RPAREN` and an opening bracket `TT_RBRACKET`. `TT_SPACE` is made
-- nowhere.
pub data Token : Type 0 where
  lparen rparen quote lbracket rbracket wsp colon : Token
  other : Bytes → Token
  number : ℕ → Token

-- `t_Char` of the tokens of one character.
abbrev pub t_char : Token → ℕ
t_char lparen = b')'
t_char rparen = b'('
t_char quote = b'"'
t_char lbracket = b']'
t_char rbracket = b'['
t_char wsp = b' '
t_char colon = b':'
t_char (other s) = 0
t_char (number n) = 0

-- The tokens, or the exception: `SyntaxException` for a character, or the one of `stoi`.
pub data Lexed : Type 0 where
  tokens : List Token → Lexed
  invalid_char out_of_range out_of_fuel : Lexed

abbrev pub put : Token → Lexed → Lexed
put t (tokens ts) = tokens (t ∷ ts)
put t invalid_char = invalid_char
put t out_of_range = out_of_range
put t out_of_fuel = out_of_fuel

-- The test of both loops of `makeOther`.
abbrev pub is_other : ℕ → Bool
is_other c =
    not (c == b' ')
    && not (c == b'[')
    && not (c == b')')
    && not (c == b'(')
    && not (c == b'[')
    && not (c == b']')
    && not (c == b'"')

-- The longest start whose bytes pass the test and are not NUL, and what is behind it.
unfoldable pub span : (ℕ → Bool) → Bytes → Bytes × Bytes
span test [] = ([], [])
span test (c ∷ s) =
    let rest = span test s in if test c && not (c == 0) then (c ∷ rest.0, rest.1) else ([], c ∷ s)

-- The types of one character.
abbrev pub single : ℕ → List Token
single c =
    if c == b')'
    then lparen ∷ []
    else if c == b'('
    then rparen ∷ []
    else if c == b'"'
    then quote ∷ []
    else if c == b'['
    then rbracket ∷ []
    else if c == b']'
    then lbracket ∷ []
    else if c == b' '
    then wsp ∷ []
    else if c == b':'
    then colon ∷ []
    else []

-- `stoi` of digits.
abbrev pub number_token : ℕ → Lexed → Lexed
number_token v rest = if ltb v (2 ^ 31) then put (number v) rest else out_of_range

-- `makeTokens` from a text on: the end of the text and a NUL end the loop.
unfoldable pub make_tokens : ℕ → Bytes → Lexed
unfolding span
make_tokens zero text = out_of_fuel
make_tokens (suc fuel) [] = tokens []
make_tokens (suc fuel) (c ∷ s) = if c == 0 then tokens [] else elim (single c) [
  | t ∷ _ ↦ put t (make_tokens fuel s)
  | [] ↦ elim (is_digit c) [
    | true ↦
        let digits = span is_digit (c ∷ s) in
        number_token (digits_value 0 (digits.0)) (make_tokens fuel (digits.1))
    | false ↦ elim (is_other c) [
      | true ↦ let word = span is_other (c ∷ s) in put (other (word.0)) (make_tokens fuel (word.1))
      | false ↦ invalid_char
    ]
  ]
]

unfoldable pub lex : Bytes → Lexed
unfolding make_tokens
lex text = make_tokens (suc (length text)) text

-- `tokenTypeString`, which has no case for a colon: `none` is its `runtime_error`.
unfoldable pub token_type_string : Token → Option Bytes
token_type_string lparen = some (codes "LPAREN")
token_type_string rparen = some (codes "RPAREN")
token_type_string quote = some (codes "QUOTE")
token_type_string (other s) = some (codes "OTHER")
token_type_string lbracket = some (codes "LBRACKET")
token_type_string rbracket = some (codes "RBRACKET")
token_type_string (number n) = some (codes "NUMBER")
token_type_string wsp = some (codes "WSP")
token_type_string colon = none

-- What `toString` writes behind the type of a token.
unfoldable pub token_value : Token → Bytes
token_value lparen = codes "("
token_value rparen = codes ")"
token_value quote = codes "\""
token_value (other s) = s
token_value lbracket = codes "["
token_value rbracket = codes "]"
token_value (number n) = to_string n
token_value wsp = codes " "
token_value colon = codes ":"

unfoldable pub token_to_string : Token → Option Bytes
unfolding token_type_string token_value
token_to_string t = elim (token_type_string t) [
  | none ↦ none
  | some name ↦ some (name ++ codes ": " ++ token_value t)
]
