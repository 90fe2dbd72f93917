-- ===== src/Imap/Lexer/Spelling.antt =====
-- What the tokens of a text are, by the bytes they stand for.
use mathlib.Core.List.{append_assoc}
use fsmtp_v.Base.{
  ℕ, zero, suc, ◌^◌, ◌≤◌, ◌<◌, Bool, true, false, not, ◌&&◌, List, [], ◌∷◌, ◌++◌, ◌==◌, ltb,
  Bool-cases, ltb→lt, length, length-append, All, ◌≡◌, ◌≢◌, ap, ◌⊎◌, inl, inr, refl, sym, ==_iff,
  arith,
}
use fsmtp_v.Base.Text.{Bytes}
use fsmtp_v.Base.Numbers.{is_digit, digits_value}
use fsmtp_v.Imap.Lexer.{
  Token, other, number, t_char, Lexed, tokens, out_of_range, put, is_other, span, single,
  number_token, make_tokens, lex,
}

-- A byte of a word, and a digit, by themselves.
abbrev pub Passes : (ℕ → Bool) → ℕ → Type 0
Passes test c = (test c ≡ true) × (c ≢ 0)

-- What is left does not go on with a byte that passes.
abbrev pub Stops : (ℕ → Bool) → Bytes → Type 0
Stops test [] = Unit
Stops test (c ∷ s) = (test c && not (c == 0)) ≡ false

-- A text and its tokens: one for each special byte, one for each longest run of digits, by its value,
-- and one for each longest run of other bytes; the text ends at its first NUL.
pub data Spells : List Token → Bytes → Type 0 where
  end : Spells [] []
  nul : {s : Bytes} → Spells [] (0 ∷ s)
  character :
      {t : Token} {c : ℕ} {ts : List Token} {s : Bytes}
      → single c ≡ t ∷ []
      → t_char t ≡ c
      → Spells ts s
      → Spells (t ∷ ts) (c ∷ s)
  digits :
      {ts : List Token} (c : ℕ) (ds s : Bytes)
      → All (Passes is_digit) (c ∷ ds)
      → Stops is_digit s
      → digits_value 0 (c ∷ ds) < 2 ^ 31
      → Spells ts s
      → Spells (number (digits_value 0 (c ∷ ds)) ∷ ts) ((c ∷ ds) ++ s)
  word :
      {ts : List Token} (c : ℕ) (w s : Bytes)
      → All (Passes is_other) (c ∷ w)
      → Stops is_other s
      → Spells ts s
      → Spells (other (c ∷ w) ∷ ts) ((c ∷ w) ++ s)

-- What the lexer may come to: the tokens of the text, or the failure of a number of 2^31 or more.
pub data Lexes (text : Bytes) : Lexed → Type 0 where
  spelled : {ts : List Token} → Spells ts text → Lexes text (tokens ts)
  overflow :
      (before ds behind : Bytes)
      → text ≡ before ++ ds ++ behind
      → All (Passes is_digit) ds
      → 2 ^ 31 ≤ digits_value 0 ds
      → Lexes text out_of_range

Passes-byte : (test : ℕ → Bool) (c : ℕ) → (test c && not (c == 0)) ≡ true → Passes test c
Passes-byte test c h = ground arith

span-parts :
    (test : ℕ → Bool) (s : Bytes)
    → ((span test s).0 ++ (span test s).1 ≡ s)
      × All (Passes test) ((span test s).0)
      × Stops test ((span test s).1)
unfolding span
span-parts test [] = (refl, tt, tt)
span-parts test (c ∷ s) = elim (Bool-cases (test c && not (c == 0))) [
  | inl passes ↦
      let ih = span-parts test s in
      rw (passes) (ap (◌∷◌ c) ih.0, (Passes-byte test c passes, ih.1), ih.2)
  | inr stops ↦ rw (stops) (refl, tt, stops)
]

single-cases : (c : ℕ) → (single c ≡ []) ⊎ ((t : Token) × (single c ≡ t ∷ []) × (t_char t ≡ c))
single-cases c = ground arith

single-other : (c : ℕ) → single c ≡ [] → is_other c ≡ true
single-other c h = ground arith

put-Lexes :
    (t : Token) (text before rest : Bytes) (l : Lexed)
    → text ≡ before ++ rest
    → ((ts : List Token) → Spells ts rest → Spells (t ∷ ts) text)
    → Lexes rest l
    → Lexes text (put t l)
put-Lexes t text before rest l e more (spelled {ts} s) = spelled (more ts s)
put-Lexes t text before rest l e more (overflow b ds a e' h big) =
    overflow (before ++ b) ds a (rw (e, e') (simp (append_assoc))) h big

number_token-Lexes :
    (c : ℕ) (ds rest s : Bytes) (l : Lexed)
    → ds ++ rest ≡ s
    → All (Passes is_digit) (c ∷ ds)
    → Stops is_digit rest
    → Lexes rest l
    → Lexes (c ∷ s) (number_token (digits_value 0 (c ∷ ds)) l)
number_token-Lexes c ds rest s l e h stop r =
    let v = digits_value 0 (c ∷ ds) in
    elim (Bool-cases (ltb v (2 ^ 31))) [
      | inl small ↦
          let below : v < 2 ^ 31 = ltb→lt v (2 ^ 31) small in
          let kept : Lexes ((c ∷ ds) ++ rest) (put (number v) l) =
            put-Lexes (number v) ((c ∷ ds) ++ rest) (c ∷ ds) rest l refl
              (λ ts s. digits c ds rest h stop below s) r in
          rw (small, ← e) kept
      | inr big ↦ rw (big) (overflow [] (c ∷ ds) rest (ap (◌∷◌ c) (sym e)) h (ground (arith, big)))
    ]

word-Lexes :
    (c : ℕ) (w rest s : Bytes) (l : Lexed)
    → w ++ rest ≡ s
    → All (Passes is_other) (c ∷ w)
    → Stops is_other rest
    → Lexes rest l
    → Lexes (c ∷ s) (put (other (c ∷ w)) l)
word-Lexes c w rest s l e h stop r =
    let kept : Lexes ((c ∷ w) ++ rest) (put (other (c ∷ w)) l) =
      put-Lexes (other (c ∷ w)) ((c ∷ w) ++ rest) (c ∷ w) rest l refl
        (λ ts s. word c w rest h stop s) r in
    rw (← e) kept

span-∷ :
    (test : ℕ → Bool) (c : ℕ) (s : Bytes)
    → Passes test c
    → span test (c ∷ s) ≡ (c ∷ (span test s).0, (span test s).1)
unfolding span
span-∷ test c s h = ground (arith, h)

-- What is left behind a run is not longer than the text.
span-length : (test : ℕ → Bool) (s : Bytes) → length ((span test s).1) ≤ length s
span-length test s =
    let run = span test s in
    let sum : length (run.0 ++ run.1) ≡ length s = ap length (span-parts test s).0 in
    omega (arith, sum, length-append (run.0) (run.1))

digits_step :
    (c : ℕ) (s : Bytes) (l : Lexed)
    → Passes is_digit c
    → Lexes ((span is_digit s).1) l
    → Lexes (c ∷ s) (number_token (digits_value 0 (c ∷ (span is_digit s).0)) l)
digits_step c s l passes r =
    let parts = span-parts is_digit s in
    number_token-Lexes c ((span is_digit s).0) ((span is_digit s).1) s l (parts.0) (passes, parts.1)
      (parts.2) r

word_step :
    (c : ℕ) (s : Bytes) (l : Lexed)
    → Passes is_other c
    → Lexes ((span is_other s).1) l
    → Lexes (c ∷ s) (put (other (c ∷ (span is_other s).0)) l)
word_step c s l passes r =
    let parts = span-parts is_other s in
    word-Lexes c ((span is_other s).0) ((span is_other s).1) s l (parts.0) (passes, parts.1)
      (parts.2) r

not_nul : (c : ℕ) → (c == 0) ≡ false → c ≢ 0
not_nul c h e = ground arith

make_tokens-Lexes :
    (fuel : ℕ) (text : Bytes) → length text < fuel → Lexes text (make_tokens fuel text)
unfolding make_tokens
make_tokens-Lexes zero text h = absurd (omega (arith, h))
make_tokens-Lexes (suc fuel) [] h = spelled end
make_tokens-Lexes (suc fuel) (c ∷ s) h = elim (Bool-cases (c == 0)) [
  | inl stop ↦ rw (stop, (==_iff c 0).0 stop) (spelled nul)
  | inr more ↦ elim (single-cases c) [
    | inr (t, e, same) ↦
        let rest = make_tokens-Lexes fuel s (omega (arith, h)) in
        rw (more, e)
          (put-Lexes t (c ∷ s) (c ∷ []) s (make_tokens fuel s) refl
            (λ ts spelling. character e same spelling) rest)
    | inl e ↦ elim (Bool-cases (is_digit c)) [
      | inl digit ↦
          let passes : Passes is_digit c = (digit, not_nul c more) in
          let left = (span is_digit s).1 in
          let shorter : length left < fuel = omega (arith, h, span-length is_digit s) in
          let step =
            digits_step c s (make_tokens fuel left) passes (make_tokens-Lexes fuel left shorter) in
          rw (more, e, digit, span-∷ is_digit c s passes) step
      | inr no_digit ↦
          let passes : Passes is_other c = (single-other c e, not_nul c more) in
          let left = (span is_other s).1 in
          let shorter : length left < fuel = omega (arith, h, span-length is_other s) in
          let step =
            word_step c s (make_tokens fuel left) passes (make_tokens-Lexes fuel left shorter) in
          rw (more, e, no_digit, single-other c e, span-∷ is_other c s passes) step
    ]
  ]
]

-- The lexer ends, and its tokens are those of the text; it fails only on a number of 2^31 or more.
pub lex-Lexes : (text : Bytes) → Lexes text (lex text)
unfolding lex
lex-Lexes text = make_tokens-Lexes (suc (length text)) text (omega arith)
