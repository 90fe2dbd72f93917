-- ===== src/Dkim/Canonicalization.antt =====
-- lib/dkim/DKIMCanonicalization.src.cc: the canonical forms of a message that a DKIM signature covers.
pub mod Headers
use fsmtp_v.Base.{
  ℕ, Bool, true, false, not, List, [], ◌∷◌, ◌++◌, map, Option, none, some, ◌==◌, if◌then◌else◌,
}
use fsmtp_v.Base.Text.{Bytes, back, pop_back}
use fsmtp_v.Mime.{get_mime_lines, get_string_from_lines}

-- The lines up to the last one with content.
unfoldable pub trim_end : List Bytes → List Bytes
trim_end [] = []
trim_end ((c ∷ line) ∷ lines) = (c ∷ line) ∷ trim_end lines
trim_end ([] ∷ lines) = elim (trim_end lines) [ [] ↦ [] | l ∷ ls ↦ [] ∷ l ∷ ls ]

-- `lines.erase(lastValidLine + 1, lines.end())`: the first line always stays; `none` is the erasure
-- behind the end of no lines at all.
unfoldable pub erase_empty : List Bytes → Option (List Bytes)
erase_empty [] = none
erase_empty (line ∷ lines) = some (line ∷ trim_end lines)

unfoldable pub simple_body : Bytes → Option Bytes
simple_body raw = elim (erase_empty (get_mime_lines raw)) [
  | none ↦ none
  | some lines ↦ some (get_string_from_lines lines)
]

-- A tab counts as a space, and a space behind a space is left out.
unfoldable pub reduce_line : Bool → Bytes → Bytes
reduce_line lww [] = []
reduce_line lww (x ∷ s) =
    let c = if x == 9 then 32 else x in
    let spaced = reduce_line true s in
    let plain = reduce_line false s in
    if c == 32 then (if lww then spaced else c ∷ spaced) else c ∷ plain

unfoldable pub strip_space : Bytes → Bytes
strip_space line = if back line == 32 then pop_back line else line

abbrev pub relax_line : Bytes → Bytes
relax_line line = strip_space (reduce_line false line)

unfoldable pub relaxed_body : Bytes → Option Bytes
relaxed_body raw = elim (erase_empty (map relax_line (get_mime_lines raw))) [
  | none ↦ none
  | some lines ↦ some (get_string_from_lines lines)
]
