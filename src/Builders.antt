-- ===== src/Builders.antt =====
-- lib/builders/mimev2.src.cc: headers as text, and the folding of long ones.
use fsmtp_v.Base.{
  ℕ, zero, suc, ◌+◌, ◌-◌, ◌%◌, ◌^◌, Bool, true, false, ◌||◌, List, [], ◌∷◌, ◌++◌, Option, none,
  some, ◌==◌, ltb, if◌then◌else◌, length, take, drop,
}
use fsmtp_v.Base.Text.{Bytes, codes, find_first_of}
use fsmtp_v.Base.Segments.{segments, trim_one}
use fsmtp_v.Mime.{line_end}
use fsmtp_v.Mime.Headers.{MimeHeader}
pub mod Fold

-- Subtraction of `size_t`.
abbrev pub sub64 : ℕ → ℕ → ℕ
sub64 a b = (a + 2 ^ 64 - b) % 2 ^ 64

unfoldable pub spaces : ℕ → Bytes
spaces zero = []
spaces (suc n) = b' ' ∷ spaces n

abbrev pub indent : Bool → ℕ
indent true = 6
indent false = 7

-- The last piece, if something is left.
abbrev pub last_piece : Bool → Bytes → List (ℕ × Bytes)
last_piece first [] = []
last_piece first (c ∷ left) = (indent first, c ∷ left) ∷ []

-- The loop over a segment that is too long: the pieces of what is left of it, each with the spaces in
-- front of it; the flag is set before the first. On fuel.
unfoldable pub fold_pieces : ℕ → ℕ → Bool → Bytes → List (ℕ × Bytes)
fold_pieces zero limit first left = last_piece first left
fold_pieces (suc fuel) limit first left =
    let room = sub64 limit (indent first) in
    let rest = fold_pieces fuel limit false (drop room left) in
    if ltb (sub64 limit 7) (length left)
    then (indent first, take room left) ∷ rest
    else last_piece first left

unfoldable pub pieces_text : List (ℕ × Bytes) → Bytes
unfolding spaces
pieces_text [] = []
pieces_text ((n, piece) ∷ pieces) = line_end ++ spaces n ++ piece ++ pieces_text pieces

-- The length of the line behind a folded segment: a segment of more than one line makes the next one
-- start a line.
abbrev line_after : ℕ → ℕ → Bytes → ℕ
line_after limit current seg =
    if ltb (sub64 limit 7) (length seg)
    then limit
    else if length seg == 0
    then current
    else length seg + 7

-- The result so far, and the length of its last line.
pub record Folding : Type 0 where
  pub result : Bytes
  pub current : ℕ

abbrev semicolon : Bool → Folding → Folding
semicolon first f =
    if first then f else record { result = f.result ++ codes "; "; current = f.current + 2 }

unfoldable pub add_segment : ℕ → Bytes → Folding → Folding
unfolding fold_pieces pieces_text
add_segment limit seg f =
    if ltb limit (length seg) || ltb limit (length seg + f.current)
    then record {
      result = f.result ++ pieces_text (fold_pieces (suc (length seg)) limit true seg);
      current = line_after limit f.current seg;
    }
    else record { result = f.result ++ seg; current = f.current + length seg }

-- The segments; an empty one is passed over.
unfoldable pub fold_segments : ℕ → Bool → List Bytes → Folding → Bytes
unfolding add_segment
fold_segments limit first [] f = f.result
fold_segments limit first ([] ∷ segs) f = fold_segments limit false segs f
fold_segments limit first ((c ∷ seg) ∷ segs) f =
    fold_segments limit false segs (add_segment limit (trim_one (c ∷ seg)) (semicolon first f))

unfoldable pub fold_pair : ℕ → Bytes → Bytes → Option Bytes
unfolding fold_segments
fold_pair limit key val =
    let start : Folding = record { result = key ++ codes ": "; current = length key + 2 } in
    let folded = fold_segments limit true (segments b';' val) start in
    if ltb limit (length key) then none else some folded

-- `foldHeader`; none is an exception.
unfoldable pub fold_header : Bytes → ℕ → Option Bytes
unfolding fold_pair
fold_header raw limit = elim (find_first_of b':' raw) [
  | none ↦ none
  | some sep ↦ fold_pair limit (trim_one (take sep raw)) (drop (suc sep) raw)
]

abbrev folded_line : ℕ → Bytes → Option Bytes
folded_line limit line =
    let folded = fold_header line limit in if ltb limit (length line) then folded else some line

abbrev and_lines : Option Bytes → Option Bytes → Option Bytes
and_lines none rest = none
and_lines (some line) none = none
and_lines (some line) (some lines) = some (line ++ line_end ++ lines)

-- `buildHeaders`.
unfoldable pub build_headers : List MimeHeader → ℕ → Option Bytes
unfolding fold_header
build_headers [] limit = some []
build_headers (h ∷ hs) limit =
    and_lines (folded_line limit (h.key ++ codes ": " ++ h.value)) (build_headers hs limit)
