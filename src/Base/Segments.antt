-- ===== src/Base/Segments.antt =====
-- The loop by which the record and header parsers cut a text at a separator: `start` and `end` walk
-- over `raw`, here over what is left of it behind `start`.
use fsmtp_v.Base.Lists.{length, length-append, take, drop, All}
use fsmtp_v.Base.Text.{
  Bytes, find_first_of, front, back, pop_back, erase_front, Avoids, split_at, Avoids-find_first_of,
  find_first_of-append, find_first_of-none, take-length, drop-suc-length,
}
use fsmtp_v.Base.Tests.{◌==◌, if◌then◌else◌, Option-cases}
use Prim.Native.Nat.{ℕ, zero, suc, ◌<◌}
use mathlib.Core.Path.{◌≡◌, refl, sym, ap, ◌∙◌}
use mathlib.Core.Logic.{◌≢◌, inl, inr}
use mathlib.Core.Option.{none, some}
use mathlib.Core.List.{List, [], ◌∷◌, ◌++◌}
use native.Mathlib.Omega.{arith}

-- On fuel; each round but the last takes a separator off.
unfoldable pub segments_loop : ℕ → ℕ → Bytes → List Bytes
segments_loop zero sep rest = rest ∷ []
segments_loop (suc fuel) sep rest = elim (find_first_of sep rest) [
  | none ↦ rest ∷ []
  | some i ↦ take i rest ∷ segments_loop fuel sep (drop (suc i) rest)
]

unfoldable pub segments : ℕ → Bytes → List Bytes
unfolding segments_loop
segments sep raw = segments_loop (suc (length raw)) sep raw

-- `if (*s.begin() == ' ') s.erase(...); if (*(s.end() - 1) == ' ') s.pop_back();`
unfoldable pub trim_one : Bytes → Bytes
trim_one s =
    let cut = if front s == b' ' then erase_front s else s in
    if back cut == b' ' then pop_back cut else cut

-- The pieces with a separator between each two.
unfoldable pub join : ℕ → List Bytes → Bytes
join sep [] = []
join sep (x ∷ []) = x
join sep (x ∷ y ∷ xs) = x ++ sep ∷ join sep (y ∷ xs)

abbrev IsCut : ℕ → Bytes → List Bytes → Type 0
IsCut sep raw pieces = (join sep pieces ≡ raw) × All (Avoids sep) pieces

length-drop-lt : (i : ℕ) (s : Bytes) → i < length s → length (drop (suc i) s) < length s
length-drop-lt i [] h = absurd (omega arith)
length-drop-lt zero (x ∷ s) h = omega arith
length-drop-lt (suc i) (x ∷ s) h = omega (arith, length-drop-lt i s)

find_first_of-lt : (c : ℕ) (s : Bytes) (i : ℕ) → find_first_of c s ≡ some i → i < length s
unfolding find_first_of
find_first_of-lt c [] i h = cc
find_first_of-lt c (x ∷ s) zero h = omega arith
find_first_of-lt c (x ∷ s) (suc i) h = ground (arith, find_first_of-lt c s i)

segments_loop-ne-nil : (fuel sep : ℕ) (rest : Bytes) → segments_loop fuel sep rest ≢ []
unfolding segments_loop
segments_loop-ne-nil zero sep rest h = cc
segments_loop-ne-nil (suc fuel) sep rest h = ground arith

join-cons :
    (sep : ℕ) (x : Bytes) (xs : List Bytes) → xs ≢ [] → join sep (x ∷ xs) ≡ x ++ sep ∷ join sep xs
unfolding join
join-cons sep x [] h = absurd (h refl)
join-cons sep x (y ∷ xs) h = refl

join_alone : (sep : ℕ) (x : Bytes) → join sep (x ∷ []) ≡ x
unfolding join
join_alone sep x = refl

segments_loop-IsCut :
    (fuel sep : ℕ) (rest : Bytes)
    → length rest < fuel
    → IsCut sep rest (segments_loop fuel sep rest)
unfolding segments_loop
segments_loop-IsCut zero sep rest h = absurd (omega arith)
segments_loop-IsCut (suc fuel) sep rest h = elim (Option-cases (find_first_of sep rest)) [
  | inl e ↦ rw (e, segments_loop) (join_alone sep rest, (Avoids-find_first_of sep rest e, tt))
  | inr (i, e) ↦
      let later = drop (suc i) rest in
      let (splits, avoids) = split_at sep rest i e in
      let shorter = length-drop-lt i rest (find_first_of-lt sep rest i e) in
      let (joins, all) = segments_loop-IsCut fuel sep later (omega arith) in
      rw (e, segments_loop)
        (
          join-cons sep (take i rest) _ (segments_loop-ne-nil fuel sep later)
              ∙ ap (λ t. take i rest ++ sep ∷ t) joins
              ∙ sym splits,
          (avoids, all),
        )
]

-- The pieces, with a separator between each two, are the text again, and no piece holds a
-- separator.
pub segments-join :
    (sep : ℕ) (raw : Bytes)
    → (join sep (segments sep raw) ≡ raw) × All (Avoids sep) (segments sep raw)
unfolding segments
segments-join sep raw = segments_loop-IsCut (suc (length raw)) sep raw (omega arith)

-- The converse of cutting: pieces without the separator are what their text is cut into.
segments_loop-join :
    (fuel sep : ℕ) (x : Bytes) (xs : List Bytes)
    → All (Avoids sep) (x ∷ xs)
    → length (join sep (x ∷ xs)) < fuel
    → segments_loop fuel sep (join sep (x ∷ xs)) ≡ x ∷ xs
unfolding segments_loop join
segments_loop-join zero sep x xs h enough = absurd (omega arith)
segments_loop-join (suc fuel) sep x [] (h, _) enough =
    rw (segments_loop, find_first_of-none sep x h) refl
segments_loop-join (suc fuel) sep x (y ∷ xs) (h, hs) enough =
    let later = join sep (y ∷ xs) in
    let shorter : length later < fuel = omega (arith, enough, length-append x (sep ∷ later)) in
    rw
      (
        segments_loop,
        find_first_of-append sep x later h,
        take-length x (sep ∷ later),
        drop-suc-length x sep later,
        segments_loop-join fuel sep y xs hs shorter,
      )
      refl

pub segments-pieces :
    (sep : ℕ) (x : Bytes) (xs : List Bytes)
    → All (Avoids sep) (x ∷ xs)
    → segments sep (join sep (x ∷ xs)) ≡ x ∷ xs
unfolding segments
segments-pieces sep x xs h =
    segments_loop-join (suc (length (join sep (x ∷ xs)))) sep x xs h (omega arith)
