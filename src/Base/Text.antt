-- ===== src/Base/Text.antt =====
-- `std::string` as a list of bytes: the operations of the C++ library that the program uses, with
-- what they do at the ends of a string, and the laws that the components share.
use Prim.Native.Char.{code}
use Prim.Native.String.{String}
use Prim.Native.Nat.{ℕ, zero, suc, ◌+◌}
use mathlib.Core.Path.{◌≡◌, refl, ap}
use mathlib.Core.Logic.{◌↔◌, ◌≢◌}
use mathlib.Core.Bool.{Bool, true, false, ◌&&◌, ◌||◌}
use mathlib.Core.Option.{Option, none, some}
use mathlib.Core.List.{List, [], ◌∷◌, ◌++◌}
use native.Mathlib.Omega.{arith}
use fsmtp_v.Base.Tests.{leb, ◌==◌, if◌then◌else◌}
use fsmtp_v.Base.Lists.{length, take, drop, All}

abbrev pub Bytes : Type 0
Bytes = List ℕ

-- The bytes of an ASCII literal.
abbrev pub codes : String → Bytes
codes String.[] = []
codes (String.◌∷◌ c s) = code c ∷ codes s

-- `operator==` of `std::string`.
unfoldable pub beq : Bytes → Bytes → Bool
beq [] [] = true
beq (x ∷ xs) (y ∷ ys) = x == y && beq xs ys
beq _ _ = false

pub beq_iff : (a b : Bytes) → (beq a b ≡ true) ↔ (a ≡ b)
unfolding beq
beq_iff (x ∷ a) (y ∷ b) = ground (arith, beq_iff a b)
beq_iff _ _ = ground arith

-- `find_first_of` of one character; `none` is `npos`.
unfoldable pub find_first_of : ℕ → Bytes → Option ℕ
find_first_of c [] = none
find_first_of c (x ∷ xs) =
    let rest = find_first_of c xs in
    if x == c then some 0 else elim rest [ none ↦ none | some i ↦ some (suc i) ]

-- `find_last_of` of one character.
unfoldable pub find_last_of : ℕ → Bytes → Option ℕ
find_last_of c [] = none
find_last_of c (x ∷ xs) = elim (find_last_of c xs) [
  | some i ↦ some (suc i)
  | none ↦ if x == c then some 0 else none
]

-- `*s.begin()` and `s[0]`: the terminating zero if the string is empty.
abbrev pub front : Bytes → ℕ
front [] = 0
front (x ∷ xs) = x

-- `*(s.end() - 1)` and `s[s.size() - 1]`. The source reads the byte in front of the text where the string
-- is empty; that byte is taken for one that no test asks for, as zero is.
abbrev pub back : Bytes → ℕ
back [] = 0
back (x ∷ []) = x
back (x ∷ y ∷ xs) = back (y ∷ xs)

-- `pop_back()`.
abbrev pub pop_back : Bytes → Bytes
pop_back [] = []
pop_back (x ∷ []) = []
pop_back (x ∷ y ∷ xs) = x ∷ pop_back (y ∷ xs)

-- `erase(0, 1)`.
abbrev pub erase_front : Bytes → Bytes
erase_front [] = []
erase_front (x ∷ xs) = xs

-- `tolower` in the C locale.
unfoldable pub tolower : ℕ → ℕ
tolower c = if leb b'A' c && leb c b'Z' then c + 32 else c

abbrev push_head : ℕ → List Bytes → List Bytes
push_head c [] = (c ∷ []) ∷ []
push_head c (x ∷ xs) = (c ∷ x) ∷ xs

-- The pieces that `while (getline(stream, piece, d))` reads: no piece behind a final delimiter.
unfoldable pub getlines : ℕ → Bytes → List Bytes
getlines d [] = []
getlines d (c ∷ s) = let rest = getlines d s in if c == d then [] ∷ rest else push_head c rest

-- No byte of the text is `c`.
abbrev pub Avoids : ℕ → Bytes → Type 0
Avoids c = All λ x. x ≢ c

-- The first `c` of `s ++ c ∷ rest` stands behind an `s` without any.
pub find_first_of-append :
    (c : ℕ) (s rest : Bytes) → Avoids c s → find_first_of c (s ++ c ∷ rest) ≡ some (length s)
unfolding find_first_of
find_first_of-append c [] rest h = ground arith
find_first_of-append c (x ∷ s) rest h = ground (arith, find_first_of-append c s rest h.1)

pub find_first_of-none : (c : ℕ) (s : Bytes) → Avoids c s → find_first_of c s ≡ none
unfolding find_first_of
find_first_of-none c [] h = refl
find_first_of-none c (x ∷ s) h = ground (arith, find_first_of-none c s h.1)

-- Where `find_first_of` finds nothing, the text has none.
pub Avoids-find_first_of : (c : ℕ) (s : Bytes) → find_first_of c s ≡ none → Avoids c s
unfolding find_first_of
Avoids-find_first_of c [] h = tt
Avoids-find_first_of c (x ∷ s) h = ground (arith, Avoids-find_first_of c s)

pub take-drop : (n : ℕ) (s : Bytes) → take n s ++ drop n s ≡ s
take-drop zero s = refl
take-drop (suc n) [] = refl
take-drop (suc n) (x ∷ s) = ap (◌∷◌ x) (take-drop n s)

pub take-length : (s t : Bytes) → take (length s) (s ++ t) ≡ s
take-length [] t = refl
take-length (x ∷ s) t = ap (◌∷◌ x) (take-length s t)

pub drop-length : (s t : Bytes) → drop (length s) (s ++ t) ≡ t
drop-length [] t = refl
drop-length (x ∷ s) t = drop-length s t

pub drop-suc-length :
    (k : Bytes) (c : ℕ) (rest : Bytes) → drop (suc (length k)) (k ++ c ∷ rest) ≡ rest
drop-suc-length [] c rest = refl
drop-suc-length (x ∷ k) c rest = drop-suc-length k c rest

-- `getline` cuts at each delimiter.
pub getlines-append :
    (d : ℕ) (s rest : Bytes) → Avoids d s → getlines d (s ++ d ∷ rest) ≡ s ∷ getlines d rest
unfolding getlines
getlines-append d [] rest h = ground arith
getlines-append d (x ∷ s) rest h = ground (arith, getlines-append d s rest h.1)

pub getlines_last : (d c : ℕ) (s : Bytes) → Avoids d (c ∷ s) → getlines d (c ∷ s) ≡ (c ∷ s) ∷ []
unfolding getlines
getlines_last d c [] h = ground arith
getlines_last d c (x ∷ s) h = ground (arith, getlines_last d x s h.1)

-- A text is split at the first `c` that `find_first_of` finds.
pub split_at :
    (c : ℕ) (s : Bytes) (i : ℕ)
    → find_first_of c s ≡ some i
    → (s ≡ take i s ++ c ∷ drop (suc i) s) × Avoids c (take i s)
unfolding find_first_of
split_at c [] i h = cc
split_at c (x ∷ s) zero h = ground arith
split_at c (x ∷ s) (suc i) h = ground (arith, split_at c s i)

unfoldable pub is_prefix : Bytes → Bytes → Bool
is_prefix [] s = true
is_prefix (c ∷ p) [] = false
is_prefix (c ∷ p) (x ∷ s) = c == x && is_prefix p s

-- `find(p) != npos`.
unfoldable pub find : Bytes → Bytes → Bool
unfolding is_prefix
find p [] = is_prefix p []
find p (x ∷ s) = is_prefix p (x ∷ s) || find p s
