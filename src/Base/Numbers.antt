-- ===== src/Base/Numbers.antt =====
-- `stol` and `to_string` of the C++ library.
pub mod Decimal
use Prim.Native.Nat.{ℕ, zero, suc, ◌+◌, ◌-◌, ◌*◌, ◌/◌, ◌%◌, ◌^◌}
use mathlib.Core.Bool.{Bool, true, false, ◌&&◌, ◌||◌}
use mathlib.Core.List.{[], ◌∷◌}
use fsmtp_v.Base.Tests.{ltb, leb, ◌==◌, if◌then◌else◌}
use fsmtp_v.Base.Text.{Bytes, front, erase_front}

-- A `long` as its 64-bit pattern, or the exception.
pub data Stol : Type 0 where
  long : ℕ → Stol
  invalid_argument out_of_range : Stol

abbrev pub is_digit : ℕ → Bool
is_digit c = leb b'0' c && leb c b'9'

-- `isspace` in the C locale.
abbrev is_space : ℕ → Bool
is_space c = c == b' ' || (leb 9 c && leb c 13)

unfoldable pub skip_space : Bytes → Bytes
skip_space [] = []
skip_space (c ∷ s) = let rest = skip_space s in if is_space c then rest else c ∷ s

-- The value of the digits up to the first other byte.
unfoldable pub digits_value : ℕ → Bytes → ℕ
digits_value acc [] = acc
digits_value acc (c ∷ s) =
    let more = digits_value (acc * 10 + (c - b'0')) s in if is_digit c then more else acc

unfoldable pub signed_value : Bool → ℕ → Stol
signed_value true v = if leb v (2 ^ 63) then long ((2 ^ 64 - v) % 2 ^ 64) else out_of_range
signed_value false v = if ltb v (2 ^ 63) then long v else out_of_range

-- `stol(s)`, base 10.
unfoldable pub stol : Bytes → Stol
unfolding skip_space digits_value signed_value
stol s =
    let t = skip_space s in
    let minus = front t == b'-' in
    let digits = if minus || front t == b'+' then erase_front t else t in
    if is_digit (front digits) then signed_value minus (digits_value 0 digits) else invalid_argument

-- `size_t i = v; --i;` of a 64-bit pattern.
abbrev pub decrement : ℕ → ℕ
decrement v = (v + 2 ^ 64 - 1) % 2 ^ 64

decimal_loop : ℕ → ℕ → Bytes → Bytes
decimal_loop zero n acc = acc
decimal_loop (suc fuel) n acc =
    let more = decimal_loop fuel (n / 10) ((b'0' + n % 10) ∷ acc) in
    if ltb n 10 then (b'0' + n) ∷ acc else more

-- `to_string` of a number that is not negative.
unfoldable pub to_string : ℕ → Bytes
unfolding decimal_loop
to_string n = decimal_loop (suc n) n []

-- `to_string` of a `long`, from its 64-bit pattern.
unfoldable pub to_string_signed : ℕ → Bytes
unfolding to_string
to_string_signed v = if ltb v (2 ^ 63) then to_string v else b'-' ∷ to_string (2 ^ 64 - v)

unfoldable pub int_of : Stol → Stol
int_of (long v) =
    if ltb v (2 ^ 31) then long v else if leb (2 ^ 64 - 2 ^ 31) v then long v else out_of_range
int_of invalid_argument = invalid_argument
int_of out_of_range = out_of_range

-- `stoi(s)`, where an `int` has 32 bits: still as the 64-bit pattern.
unfoldable pub stoi : Bytes → Stol
unfolding int_of stol
stoi s = int_of (stol s)
