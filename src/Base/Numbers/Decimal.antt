-- ===== src/Base/Numbers/Decimal.antt =====
-- `to_string` writes what `stol` reads.
use Prim.Native.Nat.{ℕ, zero, suc, ◌+◌, ◌-◌, ◌*◌, ◌/◌, ◌%◌, ◌^◌, ◌<◌, ◌≤◌}
use mathlib.Core.Path.{◌≡◌, refl, ap, ◌∙◌}
use mathlib.Core.Logic.{inl, inr}
use mathlib.Core.Bool.{true, false}
use mathlib.Core.List.{[], ◌∷◌}
use native.Mathlib.Omega.{arith}
use fsmtp_v.Base.Tests.{ltb, leb, ◌==◌, Bool-cases}
use fsmtp_v.Base.Lists.{All, All-map}
use fsmtp_v.Base.Text.{Bytes, front}
use fsmtp_v.Base.Numbers.{
  long, is_digit, skip_space, digits_value, signed_value, stol, decimal_loop, to_string,
  to_string_signed,
}

abbrev pub IsDigit : ℕ → Type 0
IsDigit c = (b'0' ≤ c) × (c ≤ b'9')

digit_lem : (n : ℕ) → n < 10 → IsDigit (b'0' + n)
digit_lem n h = (omega arith, omega arith)

digits_value-digit :
    (a n : ℕ) (acc : Bytes)
    → n < 10
    → digits_value a ((b'0' + n) ∷ acc) ≡ digits_value (a * 10 + n) acc
unfolding digits_value
digits_value-digit a n acc h =
    let digit : is_digit (b'0' + n) ≡ true = ground arith in
    let same : a * 10 + (b'0' + n - b'0') ≡ a * 10 + n = omega arith in
    rw (digits_value, digit, same) refl

digits_value-decimal_loop :
    (fuel n : ℕ) (acc : Bytes)
    → n < fuel
    → digits_value 0 (decimal_loop fuel n acc) ≡ digits_value n acc
unfolding decimal_loop digits_value
digits_value-decimal_loop zero n acc enough = absurd (omega arith)
digits_value-decimal_loop (suc fuel) n acc enough = elim (Bool-cases (ltb n 10)) [
  | inl e ↦
      let start : 0 * 10 + n ≡ n = omega arith in
      rw (decimal_loop, e)
        (digits_value-digit 0 n acc (ground arith) ∙ ap (λ m. digits_value m acc) start)
  | inr e ↦
      let big : 10 ≤ n = ground arith in
      let whole : n / 10 * 10 + n % 10 ≡ n = omega arith in
      rw (decimal_loop, e)
        (digits_value-decimal_loop fuel (n / 10) ((b'0' + n % 10) ∷ acc) (omega arith)
          ∙ digits_value-digit (n / 10) (n % 10) acc (omega arith)
          ∙ ap (λ m. digits_value m acc) whole)
]

decimal_loop-IsDigit :
    (fuel n : ℕ) (acc : Bytes) → All IsDigit acc → All IsDigit (decimal_loop fuel n acc)
unfolding decimal_loop
decimal_loop-IsDigit zero n acc h = h
decimal_loop-IsDigit (suc fuel) n acc h = elim (Bool-cases (ltb n 10)) [
  | inl e ↦ rw (decimal_loop, e) (digit_lem n (ground arith), h)
  | inr e ↦
      rw (decimal_loop, e)
        (decimal_loop-IsDigit fuel (n / 10) ((b'0' + n % 10) ∷ acc)
          (digit_lem (n % 10) (omega arith), h))
]

front-decimal_loop :
    (fuel n : ℕ) (acc : Bytes) → n < fuel → IsDigit (front (decimal_loop fuel n acc))
unfolding decimal_loop
front-decimal_loop zero n acc enough = absurd (omega arith)
front-decimal_loop (suc fuel) n acc enough = elim (Bool-cases (ltb n 10)) [
  | inl e ↦ rw (decimal_loop, e) (digit_lem n (ground arith))
  | inr e ↦
      let big : 10 ≤ n = ground arith in
      rw (decimal_loop, e) (front-decimal_loop fuel (n / 10) ((b'0' + n % 10) ∷ acc) (omega arith))
]

skip_space-digit : (s : Bytes) → IsDigit (front s) → skip_space s ≡ s
unfolding skip_space
skip_space-digit [] h = refl
skip_space-digit (c ∷ s) h = ground arith

-- Where the first byte is a digit, there is neither a space nor a sign.
stol-digit : (s : Bytes) → IsDigit (front s) → stol s ≡ signed_value false (digits_value 0 s)
unfolding stol
stol-digit s h =
    let skipped = skip_space-digit s h in
    let no_minus : (front s == b'-') ≡ false = ground arith in
    let no_plus : (front s == b'+') ≡ false = ground arith in
    let digit : is_digit (front s) ≡ true = ground arith in
    rw (stol, skipped, no_minus, no_plus, digit) refl

stol-minus :
    (s : Bytes) → IsDigit (front s) → stol (b'-' ∷ s) ≡ signed_value true (digits_value 0 s)
unfolding stol skip_space
stol-minus s h =
    let digit : is_digit (front s) ≡ true = ground arith in rw (stol, skip_space, digit) refl

front-to_string : (n : ℕ) → IsDigit (front (to_string n))
unfolding to_string
front-to_string n = front-decimal_loop (suc n) n [] (omega arith)

digits_value-to_string : (n : ℕ) → digits_value 0 (to_string n) ≡ n
unfolding to_string digits_value
digits_value-to_string n = digits_value-decimal_loop (suc n) n [] (omega arith)

signed_value-low : (v : ℕ) → v < 2 ^ 63 → signed_value false v ≡ long v
unfolding signed_value
signed_value-low v h = let low : ltb v (2 ^ 63) ≡ true = ground arith in rw (signed_value, low) refl

signed_value-high : (v : ℕ) → 2 ^ 63 ≤ v → v < 2 ^ 64 → signed_value true (2 ^ 64 - v) ≡ long v
unfolding signed_value
signed_value-high v h bound =
    let low : leb (2 ^ 64 - v) (2 ^ 63) ≡ true = ground arith in
    let back : (2 ^ 64 - (2 ^ 64 - v)) % 2 ^ 64 ≡ v = omega arith in
    rw (signed_value, low) (ap long back)

-- A pattern of 64 bits is read back from its decimal text.
pub stol-to_string_signed : (v : ℕ) → v < 2 ^ 64 → stol (to_string_signed v) ≡ long v
unfolding to_string_signed
stol-to_string_signed v bound = elim (Bool-cases (ltb v (2 ^ 63))) [
  | inl e ↦
      rw (to_string_signed, e)
        (stol-digit (to_string v) (front-to_string v)
          ∙ ap (signed_value false) (digits_value-to_string v)
          ∙ signed_value-low v (ground arith))
  | inr e ↦
      rw (to_string_signed, e)
        (stol-minus (to_string (2 ^ 64 - v)) (front-to_string (2 ^ 64 - v))
          ∙ ap (signed_value true) (digits_value-to_string (2 ^ 64 - v))
          ∙ signed_value-high v (ground arith) bound)
]

pub to_string_signed-All :
    (P : ℕ → Type 0) (v : ℕ) → P b'-' → ((c : ℕ) → IsDigit c → P c) → All P (to_string_signed v)
unfolding to_string_signed to_string
to_string_signed-All P v minus digit = elim (Bool-cases (ltb v (2 ^ 63))) [
  | inl e ↦
      rw (to_string_signed, e) (All-map digit (to_string v) (decimal_loop-IsDigit (suc v) v [] tt))
  | inr e ↦
      rw (to_string_signed, e)
        (minus, All-map digit _ (decimal_loop-IsDigit (suc (2 ^ 64 - v)) (2 ^ 64 - v) [] tt))
]
