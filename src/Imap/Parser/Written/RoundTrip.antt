-- ===== src/Imap/Parser/Written/RoundTrip.antt =====
-- The parser reads the tokens of arguments as the arguments that they write.
use mathlib.Core.Path.{subst}
use fsmtp_v.Base.{
  ℕ, Bool, zero, suc, ◌+◌, ◌-◌, ◌*◌, ◌≤◌, ◌<◌, List, [], ◌∷◌, some, length, length-append,
  get_elem?, get_elem?_bound, ◌≡◌, refl, ap, arith,
}
use fsmtp_v.Imap.Lexer.{Token, lparen, quote, lbracket, wsp, colon, number}
use fsmtp_v.Imap.Parser.{
  Argument, Arguments, empty, push_back, int32, range, ok, parse_range, range_start, range_end,
  Loop, list_loop, section_loop, child, action, analyze, analyze_token, parse,
}
use fsmtp_v.Imap.Parser.Written.{
  Written, nothing, space, item, pair, Prints, word, digits, quoted, parens, brackets, At,
  At-append, At-self, joined, parse_string-quoted,
}
use fsmtp_v.Imap.Parser.Written.Loops.{
  Scan, After, skip_space, take_item, After-then, children_scan, head_scan, parse-After,
  children-Written,
}

Prints-opens :
    (a : Argument) (t : Token) (vs : List Token)
    → Prints a t vs
    → (loop : Loop) → action loop t ≡ child
Prints-opens a t vs word list_loop = refl
Prints-opens a t vs word section_loop = refl
Prints-opens a t vs digits list_loop = refl
Prints-opens a t vs digits section_loop = refl
Prints-opens a t vs (quoted us h) list_loop = refl
Prints-opens a t vs (quoted us h) section_loop = refl
Prints-opens a t vs (parens w) list_loop = refl
Prints-opens a t vs (parens w) section_loop = refl
Prints-opens a t vs (brackets w) list_loop = refl
Prints-opens a t vs (brackets w) section_loop = refl

analyze-number :
    (F : ℕ) (ts : List Token) (k : ℕ) (target : Arguments) (n : ℕ)
    → get_elem? ts k ≡ some (number n)
    → 0 < F
    → analyze F ts k target ≡ ok (k, push_back target (int32 n))
unfolding analyze analyze_token
analyze-number (suc F) ts k target n e h = rw (e) refl
analyze-number zero ts k target n e h = absurd (omega (arith, h))

analyze-range :
    (F : ℕ) (ts : List Token) (k : ℕ) (args : Arguments) (a : Argument) (from to : ℕ)
    → get_elem? ts k ≡ some (number from)
    → get_elem? ts (suc k) ≡ some colon
    → get_elem? ts (suc (suc k)) ≡ some (number to)
    → 0 < F
    → analyze F ts (suc k) (push_back args a) ≡ ok (suc (suc k), push_back args (range from to))
unfolding analyze analyze_token parse_range range_start range_end
analyze-range (suc F) ts k args a from to before here behind h =
    let back : suc k - 1 ≡ k = omega arith in
    rw (here, analyze_token, parse_range, back, before, range_start, behind) refl
analyze-range zero ts k args a from to before here behind h = absurd (omega (arith, h))

action-colon : (loop : Loop) → action loop colon ≡ child
action-colon list_loop = refl
action-colon section_loop = refl

enough_fuel :
    (ts : List Token) (F k : ℕ) (t : Token)
    → get_elem? ts k ≡ some t
    → 2 * length ts + 2 ≤ F + 2 * k
    → 3 < F
enough_fuel ts F k t e enough = omega (arith, enough, get_elem?_bound ts k t e)

mutual
  unfolding analyze analyze_token

  scan-Written :
      {head : Bool} (ts : List Token) (scan : Scan ts head) (args : Arguments) (us : List Token)
      → Written args us
      → (f k k' : ℕ) (target : Arguments) → At ts k us
      → 2 * length ts + 2 ≤ f + 2 * k
      → k' ≡ k + length us
      → After ts scan f k target k' (joined target args)
  scan-Written ts scan args us nothing f k k' target at enough e =
      let same : k ≡ k' = omega (arith, e) in
      (f, ap (λ n. scan.at_index f n target) same, omega (arith, enough, e))
  scan-Written ts scan args _ (space {us = us} w) f k k' target at enough e =
      let m = k + length us in
      let parts = At-append ts k us (wsp ∷ []) at in
      let first = scan-Written ts scan args us w f k m target (parts.0) enough refl in
      let next = skip_space ts scan (first.0) m (joined target args) (parts.1.0) (first.2) in
      let last : suc m ≡ k' = omega (arith, e, length-append us (wsp ∷ [])) in
      subst (λ n. After ts scan f k target n (joined target args)) last
        (After-then ts scan f k m (suc m) target (joined target args) (joined target args) first
          next)
  scan-Written ts scan _ _ (item {args = args} {us = us} {vs = vs} {a = a} {t = t} w p) f k k'
        target at enough e =
      let m = k + length us in
      let b = joined target args in
      let parts = At-append ts k us (t ∷ vs) at in
      let first = scan-Written ts scan args us w f k m target (parts.0) enough refl in
      let next =
        take_item ts scan (first.0) m (m + length vs) b (push_back b a) t (parts.1.0)
          (Prints-opens a t vs p) (omega arith)
          (λ F h. analyze-Prints ts a t vs p F m (m + length vs) b (parts.1) h refl) (first.2) in
      let last : suc (m + length vs) ≡ k' = omega (arith, e, length-append us (t ∷ vs)) in
      subst (λ n. After ts scan f k target n (push_back b a)) last
        (After-then ts scan f k m (suc (m + length vs)) target b (push_back b a) first next)
  scan-Written ts scan _ _ (pair {args = args} {us = us} {from = from} {to = to} w) f k k' target at
        enough e =
      let m = k + length us in
      let b = joined target args in
      let vs = number from ∷ colon ∷ number to ∷ [] in
      let parts = At-append ts k us vs at in
      let first = scan-Written ts scan args us w f k m target (parts.0) enough refl in
      let c = push_back b (int32 from) in
      let d = push_back b (range from to) in
      let next =
        take_item ts scan (first.0) m m b c (number from) (parts.1.0)
          (Prints-opens (int32 from) (number from) [] digits) (omega arith)
          (λ F h.
            analyze-number F ts m b from (parts.1.0)
              (omega (arith, enough_fuel ts F m (number from) (parts.1.0) h)))
          (first.2) in
      let pairs =
        take_item ts scan (next.0) (suc m) (suc (suc m)) c d colon (parts.1.1.0) action-colon
          (omega arith)
          (λ F h.
            analyze-range F ts m b (int32 from) from to (parts.1.0) (parts.1.1.0) (parts.1.1.1.0)
              (omega (arith, enough_fuel ts F (suc m) colon (parts.1.1.0) h)))
          (next.2) in
      let last : suc (suc (suc m)) ≡ k' = omega (arith, e, length-append us vs) in
      subst (λ n. After ts scan f k target n d) last
        (After-then ts scan f k m (suc (suc (suc m))) target b d first
          (After-then ts scan (first.0) m (suc m) (suc (suc (suc m))) b c d next pairs))

  analyze-Prints :
      (ts : List Token) (a : Argument) (t : Token) (vs : List Token)
      → Prints a t vs
      → (F k j : ℕ) (target : Arguments) → At ts k (t ∷ vs)
      → 2 * length ts + 2 ≤ F + 2 * k
      → j ≡ k + length vs
      → analyze F ts k target ≡ ok (j, push_back target a)
  analyze-Prints ts a t vs p zero k j target at enough e =
      absurd (omega (arith, enough_fuel ts zero k t (at.0) enough))
  analyze-Prints ts a t vs word (suc F) k j target at enough e =
      let same : k ≡ j = omega (arith, e) in
      rw (at.0, analyze_token) (ap (λ n. ok (n, push_back target a)) same)
  analyze-Prints ts a t vs digits (suc F) k j target at enough e =
      let same : k ≡ j = omega (arith, e) in
      rw (at.0, analyze_token) (ap (λ n. ok (n, push_back target a)) same)
  analyze-Prints ts a t vs (quoted us plain) (suc F) k j target at enough e =
      let closing = At-append ts (suc k) us (quote ∷ []) (at.1) in
      let read =
        parse_string-quoted us (suc (length ts)) ts k j [] plain (at.1)
          (omega (arith, get_elem?_bound ts (suc k + length us) quote (closing.1.0)))
          (omega (arith, e, length-append us (quote ∷ []))) in
      rw (at.0, analyze_token, read) refl
  analyze-Prints ts a t vs (parens {args = args} {us = us} w) (suc F) k j target at enough e =
      let read =
        children-Written ts list_loop lparen args us
          (λ f k m at h e.
            scan-Written ts (children_scan list_loop ts) args us w f k m empty at h e)
          refl F k j (at.1) (omega (arith, enough))
          (omega (arith, e, length-append us (lparen ∷ []))) in
      rw (at.0, analyze_token, read) refl
  analyze-Prints ts a t vs (brackets {args = args} {us = us} w) (suc F) k j target at enough e =
      let read =
        children-Written ts section_loop lbracket args us
          (λ f k m at h e.
            scan-Written ts (children_scan section_loop ts) args us w f k m empty at h e)
          refl F k j (at.1) (omega (arith, enough))
          (omega (arith, e, length-append us (lbracket ∷ []))) in
      rw (at.0, analyze_token, read) refl

-- However a client spaces them, the arguments that it writes in tokens are the arguments that are
-- parsed: words, numbers, ranges of two numbers, strings without a quote, and lists and sections of
-- such arguments, as deep as it likes. A string reads as the characters of its tokens; a number in it
-- is its value in decimal, without the zeros in front of it in the line.
pub parse-Written :
    (args : Arguments) (ts : List Token) → Written args ts → 0 < length ts → parse ts ≡ ok args
parse-Written args [] w some_token = absurd (omega (arith, some_token))
parse-Written args (t ∷ ts) w some_token =
    let us = t ∷ ts in
    parse-After args t ts (
      scan-Written us (head_scan us) args us w (2 * length us + 2) 0 (length us) empty (At-self us)
        (omega arith) (omega arith))
