-- ===== src/Imap/Parser/Written.antt =====
-- Arguments as a client writes them in tokens, with any spaces between them.
pub mod Loops
pub mod RoundTrip
use mathlib.Core.Path.{subst}
use mathlib.Core.List.{append-nil, append_assoc}
use fsmtp_v.Base.{
  ℕ, Bool, true, false, zero, suc, ◌+◌, ◌-◌, ◌*◌, ◌≤◌, ◌<◌, List, [], ◌∷◌, ◌++◌, none, some, Option,
  length, length-append, get_elem?, get_elem?_bound, get_elem?-none, All, map, ◌≡◌, ◌≢◌, refl, sym,
  ap, ◌∙◌, arith,
}
use fsmtp_v.Base.Text.{Bytes, codes}
use fsmtp_v.Base.Numbers.{to_string}
use fsmtp_v.Imap.Lexer.{Token, lparen, rparen, quote, lbracket, rbracket, wsp, colon, other, number}
use fsmtp_v.Imap.Parser.{
  Argument, Arguments, empty, push_back, string, int32, atom, section, list, range, Parsed, ok,
  bind, parse_range, range_start, range_end, parse_string, string_token, content_of, Loop,
  list_loop, section_loop, Action, close, skip, child, action, State, analyze, analyze_token,
  children, child_token, child_action, analyze_head, scan_head, parse,
}

-- What stands in a string for a token: its one character, its bytes, or the decimal of its number.
abbrev pub spelled : Token → Bytes
spelled lparen = codes ")"
spelled rparen = codes "("
spelled quote = codes "\""
spelled lbracket = codes "]"
spelled rbracket = codes "["
spelled wsp = codes " "
spelled colon = codes ":"
spelled (other s) = s
spelled (number n) = to_string n

-- The content of a string of tokens.
abbrev pub content : List Token → Bytes
content [] = []
content (t ∷ us) = spelled t ++ content us

-- The tokens of arguments, with any spaces between them, and of an argument, its first token apart.
mutual
  pub data Written : Arguments → List Token → Type 0 where
    nothing : Written empty []
    space : {args : Arguments} {us : List Token} → Written args us → Written args (us ++ wsp ∷ [])
    item :
        {args : Arguments} {us vs : List Token} {a : Argument} {t : Token}
        → Written args us
        → Prints a t vs
        → Written (push_back args a) (us ++ t ∷ vs)
    pair :
        {args : Arguments} {us : List Token} {from to : ℕ}
        → Written args us
        → Written (push_back args (range from to)) (us ++ number from ∷ colon ∷ number to ∷ [])

  pub data Prints : Argument → Token → List Token → Type 0 where
    word : {s : Bytes} → Prints (atom s) (other s) []
    digits : {n : ℕ} → Prints (int32 n) (number n) []
    quoted :
        (us : List Token)
        → All (λ t. t ≢ quote) us
        → Prints (string (content us)) quote (us ++ quote ∷ [])
    parens :
        {args : Arguments} {us : List Token}
        → Written args us
        → Prints (list args) rparen (us ++ lparen ∷ [])
    brackets :
        {args : Arguments} {us : List Token}
        → Written args us
        → Prints (section args) rbracket (us ++ lbracket ∷ [])

-- The tokens `us` stand in `ts` from `k` on.
abbrev pub At : List Token → ℕ → List Token → Type 0
At ts k [] = Unit
At ts k (u ∷ us) = (get_elem? ts k ≡ some u) × At ts (suc k) us

pub At-append :
    (ts : List Token) (k : ℕ) (us vs : List Token)
    → At ts k (us ++ vs)
    → At ts k us × At ts (k + length us) vs
At-append ts k [] vs h =
    let moved : k ≡ k + 0 = omega arith in (tt, subst (λ n. At ts n vs) moved h)
At-append ts k (u ∷ us) vs h =
    let rest = At-append ts (suc k) us vs (h.1) in
    let moved : suc k + length us ≡ k + length (u ∷ us) = omega arith in
    ((h.0, rest.0), subst (λ n. At ts n vs) moved (rest.1))

At-∷ : (t : Token) (ts : List Token) (k : ℕ) (us : List Token) → At ts k us → At (t ∷ ts) (suc k) us
At-∷ t ts k [] h = tt
At-∷ t ts k (u ∷ us) h = (h.0, At-∷ t ts (suc k) us (h.1))

pub At-self : (ts : List Token) → At ts 0 ts
At-self [] = tt
At-self (t ∷ ts) = (refl, At-∷ t ts 0 ts (At-self ts))

abbrev pub joined : Arguments → Arguments → Arguments
joined target empty = target
joined target (push_back args a) = push_back (joined target args) a

pub empty-joined : (args : Arguments) → joined empty args ≡ args
empty-joined empty = refl
empty-joined (push_back args a) = ap (λ x. push_back x a) (empty-joined args)

content_of-spelled : (t : Token) → content_of t ≡ spelled t
content_of-spelled lparen = refl
content_of-spelled rparen = refl
content_of-spelled quote = refl
content_of-spelled lbracket = refl
content_of-spelled rbracket = refl
content_of-spelled wsp = refl
content_of-spelled colon = refl
content_of-spelled (other s) = refl
content_of-spelled (number n) = refl

string_token-more :
    (again : Bytes → Parsed (ℕ × Bytes)) (i : ℕ) (s : Bytes) (t : Token)
    → t ≢ quote
    → string_token again i s (some t) ≡ again (s ++ spelled t)
unfolding string_token
string_token-more again i s quote h = absurd (h refl)
string_token-more again i s t h = ap (λ b. again (s ++ b)) (content_of-spelled t)

pub parse_string-quoted :
    (us : List Token) (f : ℕ) (ts : List Token) (i j : ℕ) (s : Bytes)
    → All (λ t. t ≢ quote) us
    → At ts (suc i) (us ++ quote ∷ [])
    → length us < f
    → j ≡ i + suc (length us)
    → parse_string f ts i s ≡ ok (j, s ++ content us)
unfolding parse_string string_token
parse_string-quoted [] (suc f) ts i j s plain at enough e =
    let here : suc i ≡ j = omega (arith, e) in rw (at.0, append-nil) (ap (λ n. ok (n, s)) here)
parse_string-quoted (u ∷ us) (suc f) ts i j s plain at enough e =
    rw (at.0, string_token-more (parse_string f ts (suc i)) (suc i) s u (plain.0))
      (parse_string-quoted us f ts (suc i) j (s ++ spelled u) (plain.1) (at.1)
          (omega (arith, enough)) (omega (arith, e))
        ∙ ap (λ x. ok (j, x)) (append_assoc s (spelled u) (content us)))
parse_string-quoted us zero ts i j s plain at enough e = absurd (omega (arith, enough))
