-- ===== src/Base/Bits.antt =====
-- `&` and `|` on unsigned words, at every width: what the sessions' flag words and the header's
-- bit fields need.
use Prim.Native.Nat.{
  ℕ, zero, suc, ◌+◌, ◌*◌, ◌/◌, ◌%◌, ◌≤◌, min, max, bit_and, bit_or, digits, bit_and-bitwise,
  bit_or-bitwise,
}
use mathlib.Core.Path.{◌≡◌, refl, ap}
use native.Mathlib.Omega.{arith}

-- Both operations run over the digits with a function for one digit. More rounds than the first word
-- needs change nothing.
module _ (end : ℕ → ℕ) (f : ℕ → ℕ → ℕ) where
  enough_rounds : (x y k l : ℕ) → x ≤ k → x ≤ l → digits end f k x y ≡ digits end f l x y
  enough_rounds zero y zero zero u v = refl
  enough_rounds zero y zero (suc l) u v = refl
  enough_rounds zero y (suc k) zero u v = refl
  enough_rounds zero y (suc k) (suc l) u v = refl
  enough_rounds (suc x) y (suc k) (suc l) u v =
      let half = enough_rounds (suc x / 2) (y / 2) k l (omega (arith, u)) (omega (arith, v)) in
      omega (arith, half)
  enough_rounds (suc x) y zero l u v = absurd (omega (arith, u))
  enough_rounds (suc x) y (suc k) zero u v = absurd (omega (arith, v))

-- The lowest digit, and the word without it.
pub bit_and_step : (a b : ℕ) → bit_and a b ≡ bit_and (a / 2) (b / 2) * 2 + min (a % 2) (b % 2)
bit_and_step zero b = omega (arith, bit_and-bitwise 0 (b / 2), bit_and-bitwise 0 b)
bit_and_step (suc a) b =
    let half =
      enough_rounds (λ y. zero) min (suc a / 2) (b / 2) a (suc a / 2) (omega arith) (omega arith) in
    omega (arith, half, bit_and-bitwise (suc a / 2) (b / 2), bit_and-bitwise (suc a) b)

pub bit_or_step : (a b : ℕ) → bit_or a b ≡ bit_or (a / 2) (b / 2) * 2 + max (a % 2) (b % 2)
bit_or_step zero b = omega (arith, bit_or-bitwise 0 (b / 2), bit_or-bitwise 0 b)
bit_or_step (suc a) b =
    let half =
      enough_rounds (λ y. y) max (suc a / 2) (b / 2) a (suc a / 2) (omega arith) (omega arith) in
    omega (arith, half, bit_or-bitwise (suc a / 2) (b / 2), bit_or-bitwise (suc a) b)

bit_or_half : (a b : ℕ) → bit_or a b / 2 ≡ bit_or (a / 2) (b / 2)
bit_or_half a b = omega (arith, bit_or_step a b)

bit_or_low : (a b : ℕ) → bit_or a b % 2 ≡ max (a % 2) (b % 2)
bit_or_low a b = omega (arith, bit_or_step a b)

bit_and_half : (a b : ℕ) → bit_and a b / 2 ≡ bit_and (a / 2) (b / 2)
bit_and_half a b = omega (arith, bit_and_step a b)

-- The laws go from the halves to the whole, so each is proved below a bound on its words.
or_self_below : (n a b : ℕ) → a + b ≤ n → bit_and (bit_or a b) b ≡ b
or_self_below zero zero zero h = refl
or_self_below zero (suc a) b h = absurd (omega arith)
or_self_below zero zero (suc b) h = absurd (omega arith)
or_self_below (suc n) a b h = omega (
  arith,
  bit_and_step (bit_or a b) b,
  ap (λ (t : ℕ). bit_and t (b / 2)) (bit_or_half a b),
  bit_or_low a b,
  or_self_below n (a / 2) (b / 2) (omega arith),
)

-- `(a | m) & m == m`: what `setFlag` sets, `getFlag` sees.
pub bit_and-bit_or_self : (a b : ℕ) → bit_and (bit_or a b) b ≡ b
bit_and-bit_or_self a b = or_self_below (a + b) a b (omega arith)

or_keeps_below : (n a m k : ℕ) → a + m + k ≤ n → bit_and a k ≡ k → bit_and (bit_or a m) k ≡ k
or_keeps_below zero zero zero zero h e = refl
or_keeps_below zero (suc a) m k h e = absurd (omega arith)
or_keeps_below zero zero (suc m) k h e = absurd (omega arith)
or_keeps_below zero zero zero (suc k) h e = absurd (omega arith)
or_keeps_below (suc n) a m k h e = omega (
  arith,
  bit_and_step (bit_or a m) k,
  bit_and_step a k,
  ap (λ (t : ℕ). bit_and t (k / 2)) (bit_or_half a m),
  bit_or_low a m,
  or_keeps_below n (a / 2) (m / 2) (k / 2) (omega arith) (omega (arith, bit_and_step a k)),
)

-- A flag that is set stays set under `|=`.
pub bit_and-bit_or_keeps : (a m k : ℕ) → bit_and a k ≡ k → bit_and (bit_or a m) k ≡ k
bit_and-bit_or_keeps a m k = or_keeps_below (a + m + k) a m k (omega arith)

or_apart_below :
    (n a m k : ℕ) → a + m + k ≤ n → bit_and m k ≡ 0 → bit_and (bit_or a m) k ≡ bit_and a k
or_apart_below zero zero zero zero h e = refl
or_apart_below zero (suc a) m k h e = absurd (omega arith)
or_apart_below zero zero (suc m) k h e = absurd (omega arith)
or_apart_below zero zero zero (suc k) h e = absurd (omega arith)
or_apart_below (suc n) a m k h e = omega (
  arith,
  bit_and_step (bit_or a m) k,
  bit_and_step a k,
  bit_and_step m k,
  ap (λ (t : ℕ). bit_and t (k / 2)) (bit_or_half a m),
  bit_or_low a m,
  or_apart_below n (a / 2) (m / 2) (k / 2) (omega arith) (omega (arith, bit_and_step m k)),
)

-- A mask that shares no bit with the one set reads as before.
pub bit_and-bit_or_apart : (a m k : ℕ) → bit_and m k ≡ 0 → bit_and (bit_or a m) k ≡ bit_and a k
bit_and-bit_or_apart a m k = or_apart_below (a + m + k) a m k (omega arith)

and_apart_below :
    (n a x k : ℕ) → a + x + k ≤ n → bit_and x k ≡ k → bit_and (bit_and a x) k ≡ bit_and a k
and_apart_below zero zero zero zero h e = refl
and_apart_below zero (suc a) x k h e = absurd (omega arith)
and_apart_below zero zero (suc x) k h e = absurd (omega arith)
and_apart_below zero zero zero (suc k) h e = absurd (omega arith)
and_apart_below (suc n) a x k h e = omega (
  arith,
  bit_and_step (bit_and a x) k,
  bit_and_step a k,
  bit_and_step x k,
  bit_and_step a x,
  ap (λ (t : ℕ). bit_and t (k / 2)) (bit_and_half a x),
  and_apart_below n (a / 2) (x / 2) (k / 2) (omega arith) (omega (arith, bit_and_step x k)),
)

-- `a & x` reads as `a` under every mask that `x` covers.
pub bit_and-bit_and_covered : (a x k : ℕ) → bit_and x k ≡ k → bit_and (bit_and a x) k ≡ bit_and a k
bit_and-bit_and_covered a x k = and_apart_below (a + x + k) a x k (omega arith)

and_none_below : (n a x k : ℕ) → a + x + k ≤ n → bit_and x k ≡ 0 → bit_and (bit_and a x) k ≡ 0
and_none_below zero zero zero zero h e = refl
and_none_below zero (suc a) x k h e = absurd (omega arith)
and_none_below zero zero (suc x) k h e = absurd (omega arith)
and_none_below zero zero zero (suc k) h e = absurd (omega arith)
and_none_below (suc n) a x k h e = omega (
  arith,
  bit_and_step (bit_and a x) k,
  bit_and_step x k,
  bit_and_step a x,
  ap (λ (t : ℕ). bit_and t (k / 2)) (bit_and_half a x),
  and_none_below n (a / 2) (x / 2) (k / 2) (omega arith) (omega (arith, bit_and_step x k)),
)

-- `a & x` has no bit of a mask that `x` has none of.
pub bit_and-bit_and_none : (a x k : ℕ) → bit_and x k ≡ 0 → bit_and (bit_and a x) k ≡ 0
bit_and-bit_and_none a x k = and_none_below (a + x + k) a x k (omega arith)
