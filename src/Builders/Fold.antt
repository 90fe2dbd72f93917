-- ===== src/Builders/Fold.antt =====
-- lib/builders/mimev2.src.cc, `foldHeader`: the lines of a segment that is too long.
use mathlib.Core.List.{append-nil}
use fsmtp_v.Base.{
  ℕ, zero, suc, ◌+◌, ◌-◌, ◌^◌, ◌≤◌, ◌<◌, Bool, true, false, List, [], ◌∷◌, ◌++◌, ◌≡◌, refl, arith,
  All, ltb, length, take, drop, Bool-cases, ltb→lt, inl, inr,
}
use fsmtp_v.Base.Text.{Bytes, take-drop}
use fsmtp_v.Builders.{sub64, indent, last_piece, fold_pieces}

-- The pieces without what stands in front of them.
abbrev pub unfolded : List (ℕ × Bytes) → Bytes
unfolded [] = []
unfolded ((n, piece) ∷ pieces) = piece ++ unfolded pieces

abbrev pub Fits : ℕ → ℕ × Bytes → Type 0
Fits limit line = line.0 + length (line.1) ≤ limit

sub64-le : (a b : ℕ) → b ≤ a → a < 2 ^ 64 → sub64 a b ≡ a - b
sub64-le a b h bound = omega arith

length-take-le : (n : ℕ) (s : Bytes) → length (take n s) ≤ n
length-take-le zero s = omega arith
length-take-le (suc n) [] = omega arith
length-take-le (suc n) (x ∷ s) = omega (arith, length-take-le n s)

length-drop : (n : ℕ) (s : Bytes) → length (drop n s) ≡ length s - n
length-drop zero s = omega arith
length-drop (suc n) [] = omega arith
length-drop (suc n) (x ∷ s) = omega (arith, length-drop n s)

last_piece-Fits :
    (limit : ℕ) (first : Bool) (left : Bytes)
    → 7 ≤ limit
    → length left ≤ limit - 7
    → All (Fits limit) (last_piece first left)
last_piece-Fits limit first [] wide short = tt
last_piece-Fits limit true (c ∷ left) wide short = (omega (arith, short), tt)
last_piece-Fits limit false (c ∷ left) wide short = (omega (arith, short), tt)

unfolded-last_piece : (first : Bool) (left : Bytes) → unfolded (last_piece first left) ≡ left
unfolded-last_piece first [] = refl
unfolded-last_piece first (c ∷ left) = append-nil (c ∷ left)

fold_pieces-unfolded :
    (fuel limit : ℕ) (first : Bool) (left : Bytes)
    → unfolded (fold_pieces fuel limit first left) ≡ left
unfolding fold_pieces
fold_pieces-unfolded zero limit first left = unfolded-last_piece first left
fold_pieces-unfolded (suc fuel) limit first left =
    elim (Bool-cases (ltb (sub64 limit 7) (length left))) [
      | inl e ↦
          let room = sub64 limit (indent first) in
          rw (fold_pieces, e, fold_pieces-unfolded fuel limit false (drop room left))
            (take-drop room left)
      | inr e ↦ rw (fold_pieces, e) (unfolded-last_piece first left)
    ]

room_lem :
    (limit : ℕ) (first : Bool)
    → 7 < limit
    → limit < 2 ^ 64
    → (indent first + sub64 limit (indent first) ≡ limit) × (0 < sub64 limit (indent first))
room_lem limit true wide bound = (omega arith, omega arith)
room_lem limit false wide bound = (omega arith, omega arith)

fold_pieces-Fits :
    (fuel limit : ℕ) (first : Bool) (left : Bytes)
    → 7 < limit
    → limit < 2 ^ 64
    → length left < fuel
    → All (Fits limit) (fold_pieces fuel limit first left)
unfolding fold_pieces
fold_pieces-Fits zero limit first left wide bound enough = absurd (omega (arith, enough))
fold_pieces-Fits (suc fuel) limit first left wide bound enough =
    elim (Bool-cases (ltb (sub64 limit 7) (length left))) [
      | inl e ↦
          let room = sub64 limit (indent first) in
          let narrow : (indent first + room ≡ limit) × (0 < room) =
            room_lem limit first wide bound in
          let fits : indent first + length (take room left) ≤ limit =
            omega (arith, narrow.0, length-take-le room left) in
          let longer : limit - 7 < length left =
            omega (arith, ltb→lt _ _ e, sub64-le limit 7 (omega arith) bound) in
          let fewer : length (drop room left) < fuel =
            omega (arith, length-drop room left, enough, narrow.1, longer) in
          rw (fold_pieces, e)
            (fits, fold_pieces-Fits fuel limit false (drop room left) wide bound fewer)
      | inr e ↦
          rw (fold_pieces, e)
            (last_piece-Fits limit first left (omega arith) (ground (arith, e, sub64-le limit 7)))
    ]

-- A segment that is folded for a limit above 7 is its pieces one behind the other, and no line, with
-- the spaces in front of it, is longer than the limit.
pub fold_pieces-Folds :
    (limit : ℕ) (seg : Bytes)
    → 7 < limit
    → limit < 2 ^ 64
    → (unfolded (fold_pieces (suc (length seg)) limit true seg) ≡ seg)
      × All (Fits limit) (fold_pieces (suc (length seg)) limit true seg)
fold_pieces-Folds limit seg wide bound = (
  fold_pieces-unfolded (suc (length seg)) limit true seg,
  fold_pieces-Fits (suc (length seg)) limit true seg wide bound (omega arith),
)
