-- ===== src/Dkim/Canonicalization/Headers.antt =====
-- lib/dkim/DKIMCanonicalization.src.cc, `simpleHeaders` and `relaxedHeaders`: the canonical forms of
-- the headers that a signature covers. None is an exception.
pub mod Order
use fsmtp_v.Base.{
  ℕ, suc, Bool, false, ◌||◌, List, [], ◌∷◌, ◌++◌, map, Option, none, some, ◌==◌, if◌then◌else◌,
  take, drop,
}
use fsmtp_v.Base.Text.{Bytes, beq, front, erase_front, find_first_of, tolower}
use fsmtp_v.Base.Segments.{trim_one}
use fsmtp_v.General.Cleanup.{reduce_loop}
use fsmtp_v.Mime.{get_mime_lines, get_string_from_lines}
use fsmtp_v.Dkim.Canonicalization.{strip_space}

unfoldable pub contains : Bytes → List Bytes → Bool
contains key [] = false
contains key (name ∷ names) = beq name key || contains key names

unfoldable pub key_at : ℕ → Bytes → Bytes
key_at sep line = trim_one (map tolower (take sep line))

unfoldable pub and_line : Bool → Bytes → Option (List Bytes) → Option (List Bytes)
and_line kept line none = none
and_line kept line (some lines) = some (if kept then line ∷ lines else lines)

-- An empty line is passed over.
unfoldable pub simple_lines : List Bytes → List Bytes → Option (List Bytes)
unfolding contains key_at and_line
simple_lines filter [] = some []
simple_lines filter ([] ∷ lines) = simple_lines filter lines
simple_lines filter ((c ∷ line) ∷ lines) =
    let rest = simple_lines filter lines in
    elim (find_first_of b':' (c ∷ line)) [
      | none ↦ none
      | some sep ↦ and_line (contains (key_at sep (c ∷ line)) filter) (c ∷ line) rest
    ]

unfoldable pub simple_headers : Bytes → List Bytes → Option Bytes
unfolding simple_lines
simple_headers raw filter = elim (simple_lines filter (get_mime_lines raw)) [
  | none ↦ none
  | some lines ↦ some (get_string_from_lines lines)
]

-- Spaces are reduced, and one goes off each end.
unfoldable pub relax_value : Bytes → Bytes
relax_value val =
    let cut = strip_space (reduce_loop false val) in
    if front cut == b' ' then erase_front cut else cut

unfoldable pub relax_at : ℕ → Bytes → Bytes
unfolding key_at relax_value
relax_at sep line = key_at sep line ++ b':' ∷ relax_value (drop (suc sep) line)

unfoldable pub and_pair :
    Bool → Bytes × Bytes → Option (List (Bytes × Bytes)) → Option (List (Bytes × Bytes))
and_pair kept pair none = none
and_pair kept pair (some pairs) = some (if kept then pair ∷ pairs else pairs)

-- The headers that the filter names, each with its key.
unfoldable pub relaxed_lines : List Bytes → List Bytes → Option (List (Bytes × Bytes))
unfolding contains key_at relax_at and_pair
relaxed_lines filter [] = some []
relaxed_lines filter (line ∷ lines) =
    let rest = relaxed_lines filter lines in
    elim (find_first_of b':' line) [
      | none ↦ none
      | some sep ↦
          and_pair (contains (key_at sep line) filter) (key_at sep line, relax_at sep line) rest
    ]

unfoldable pub find_header : Bytes → List (Bytes × Bytes) → Option Bytes
find_header key [] = none
find_header key ((name, header) ∷ pairs) =
    let rest = find_header key pairs in if beq name key then some header else rest

-- The headers in the order of the filter.
unfoldable pub sort_headers : List (Bytes × Bytes) → List Bytes → Option (List Bytes)
unfolding find_header
sort_headers pairs [] = some []
sort_headers pairs (key ∷ keys) =
    let rest = sort_headers pairs keys in
    elim (find_header key pairs) [
      | none ↦ none
      | some header ↦ elim rest [ none ↦ none | some headers ↦ some (header ∷ headers) ]
    ]

-- Nothing left is an exception too.
unfoldable pub non_empty : Option (List Bytes) → Option Bytes
non_empty none = none
non_empty (some []) = none
non_empty (some (line ∷ lines)) = some (get_string_from_lines (line ∷ lines))

unfoldable pub relaxed_headers : Bytes → List Bytes → Option Bytes
unfolding relaxed_lines sort_headers non_empty
relaxed_headers raw filter = elim (relaxed_lines filter (get_mime_lines raw)) [
  | none ↦ none
  | some pairs ↦ non_empty (sort_headers pairs filter)
]
