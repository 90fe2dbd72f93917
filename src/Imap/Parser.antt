-- ===== src/Imap/Parser.antt =====
-- lib/imap/IMAPCommandParser.src.cc, `Parser`: the arguments of a command from their tokens. The
-- depth of the calls is bounded by fuel; twice the number of the tokens, and two, are enough.
pub mod Terminates
pub mod Written
use fsmtp_v.Base.{
  ℕ, zero, suc, ◌+◌, ◌-◌, ◌*◌, ◌^◌, Bool, true, false, List, [], ◌∷◌, ◌++◌, none, some, Option,
  length, get_elem?, ◌≡◌, refl,
}
use fsmtp_v.Base.Text.{Bytes, codes}
use fsmtp_v.Base.Numbers.{to_string}
use fsmtp_v.Imap.Lexer.{
  Token, lparen, rparen, quote, lbracket, rbracket, wsp, colon, other, number, t_char,
}

-- An argument, and a `vector` of them as `push_back` builds it. An `int32_t` is its 32-bit pattern.
mutual
  pub data Argument : Type 0 where
    string : Bytes → Argument
    int32 : ℕ → Argument
    atom : Bytes → Argument
    section : Arguments → Argument
    list : Arguments → Argument
    range : ℕ → ℕ → Argument

  pub data Arguments : Type 0 where
    empty : Arguments
    push_back : Arguments → Argument → Arguments

-- What a call comes to: its result; a `SyntaxException` with the index of the token and the message;
-- the `runtime_error` of `analyze`; or undefined behaviour, here a read behind the end of the tokens.
pub data Parsed {ℓ} (A : Type ℓ) : Type ℓ where
  ok : A → Parsed A
  syntax : ℕ → Bytes → Parsed A
  not_implemented : Parsed A
  undefined : Parsed A
  out_of_fuel : Parsed A

abbrev pub bind {ℓ κ} : {A : Type ℓ} {B : Type κ} → Parsed A → (A → Parsed B) → Parsed B
bind (ok a) f = f a
bind (syntax i e) f = syntax i e
bind not_implemented f = not_implemented
bind undefined f = undefined
bind out_of_fuel f = out_of_fuel

-- `p_TokenIndex` and the arguments of the target.
abbrev pub State : Type 0
State = ℕ × Arguments

-- `pop_back` of a vector that is not empty.
abbrev pub pop_back : Arguments → Arguments
pop_back empty = empty
pop_back (push_back args a) = args

-- -1 as an `int32_t`.
abbrev pub minus_one : ℕ
minus_one = 2 ^ 32 - 1

-- `range`, at the colon: the token in front of it, and the one behind it, which is read only if the
-- first is a number.
unfoldable pub range_end : ℕ → ℕ → Option Token → Arguments → Parsed State
range_end i from none target = undefined
range_end i from (some (other s)) target =
    ok (suc i, push_back (pop_back target) (range minus_one minus_one))
range_end i from (some (number to)) target = ok (suc i, push_back (pop_back target) (range from to))
range_end i from (some _) target = syntax i (codes "Range requires two numbers")

unfoldable pub range_start : List Token → ℕ → Arguments → Option Token → Parsed State
unfolding range_end
range_start ts i target (some (number from)) = range_end i from (get_elem? ts (suc i)) target
range_start ts i target _ = syntax i (codes "Range requires two numbers")

unfoldable pub parse_range : List Token → ℕ → Arguments → Parsed State
unfolding range_start
parse_range ts i empty = syntax i (codes "Invalid range !")
parse_range ts i (push_back args a) = range_start ts i (push_back args a) (get_elem? ts (i - 1))

-- What a token adds to the content of a string.
abbrev pub content_of : Token → Bytes
content_of (other s) = s
content_of (number n) = to_string n
content_of t = t_char t ∷ []

-- `string`, from the index in front of the next token on; `again` is the rest of the loop.
unfoldable pub string_token :
    (Bytes → Parsed (ℕ × Bytes)) → ℕ → Bytes → Option Token → Parsed (ℕ × Bytes)
string_token again i content none = syntax i (codes "Closing quote not found !")
string_token again i content (some quote) = ok (i, content)
string_token again i content (some t) = again (content ++ content_of t)

unfoldable pub parse_string : ℕ → List Token → ℕ → Bytes → Parsed (ℕ × Bytes)
unfolding string_token
parse_string zero ts i content = out_of_fuel
parse_string (suc fuel) ts i content =
    string_token (parse_string fuel ts (suc i)) (suc i) content (get_elem? ts (suc i))

-- The two loops over children, and what ends them.
pub data Loop : Type 0 where
  list_loop section_loop : Loop

pub data Action : Type 0 where
  close skip child : Action

abbrev pub action : Loop → Token → Action
action list_loop lparen = close
action section_loop lbracket = close
action _ wsp = skip
action _ _ = child

-- The switch of `analyze` at the current token, over the loops of the lists.
unfoldable pub analyze_token :
    (Loop → Arguments → Parsed State) → List Token → ℕ → Arguments → Option Token → Parsed State
unfolding parse_range parse_string
analyze_token loops ts i target none = undefined
analyze_token loops ts i target (some rparen) =
    bind (loops list_loop empty) λ (j, kids). ok (j, push_back target (list kids))
analyze_token loops ts i target (some rbracket) =
    bind (loops section_loop empty) λ (j, kids). ok (j, push_back target (section kids))
analyze_token loops ts i target (some quote) =
    bind (parse_string (suc (length ts)) ts i [])
      λ (j, content). ok (j, push_back target (string content))
analyze_token loops ts i target (some (number n)) = ok (i, push_back target (int32 n))
analyze_token loops ts i target (some wsp) = ok (i, target)
analyze_token loops ts i target (some (other s)) = ok (i, push_back target (atom s))
analyze_token loops ts i target (some colon) = parse_range ts i target
analyze_token loops ts i target (some _) = not_implemented

-- What the loop of `list` or `section` does at a token, with the call of `analyze` and its own rest.
unfoldable pub child_action :
    (Arguments → Parsed State)
    → (ℕ → Arguments → Parsed State)
    → ℕ
    → Arguments
    → Action
    → Parsed State
child_action item again i target close = ok (i, target)
child_action item again i target skip = again i target
child_action item again i target child = bind (item target) λ (j, more). again j more

unfoldable pub child_token :
    (Arguments → Parsed State)
    → (ℕ → Arguments → Parsed State)
    → Loop
    → ℕ
    → Arguments
    → Option Token
    → Parsed State
unfolding child_action
child_token item again loop i target none = syntax i (codes "Closing paren not found")
child_token item again loop i target (some t) = child_action item again i target (action loop t)

unfoldable mutual
  unfolding analyze_token child_token

  -- `analyze` without the scan for another argument.
  pub analyze : ℕ → List Token → ℕ → Arguments → Parsed State
  analyze zero ts i target = out_of_fuel
  analyze (suc fuel) ts i target =
      analyze_token (λ loop. children fuel loop ts i) ts i target (get_elem? ts i)

  -- The loop of `list` and of `section`, from the index in front of the next token on.
  pub children : ℕ → Loop → List Token → ℕ → Arguments → Parsed State
  children zero loop ts i target = out_of_fuel
  children (suc fuel) loop ts i target =
      child_token (analyze fuel ts (suc i)) (children fuel loop ts) loop (suc i) target
        (get_elem? ts (suc i))

-- `analyze` at the head: each argument, and the scan for another one.
unfoldable pub scan_head :
    (Arguments → Parsed Arguments) → Arguments → Option Token → Parsed Arguments
scan_head again target none = ok target
scan_head again target (some _) = again target

unfoldable pub analyze_head : ℕ → List Token → ℕ → Arguments → Parsed Arguments
unfolding analyze scan_head
analyze_head zero ts i target = out_of_fuel
analyze_head (suc fuel) ts i target =
    bind (analyze (2 * length ts + 2) ts i target)
      λ (j, more). scan_head (analyze_head fuel ts (suc j)) more (get_elem? ts (suc j))

unfoldable pub parse : List Token → Parsed Arguments
unfolding analyze_head
parse ts = analyze_head (2 * length ts + 2) ts 0 empty
