-- ===== src/Mime.antt =====
-- lib/mime/mimev2.src.cc: a message as lines, and where its headers and its body stand.
pub mod Lines
pub mod Headers
pub mod Content
pub mod Multipart
pub mod Message
use fsmtp_v.Base.{List, [], ◌∷◌, ◌++◌, map, Option, none, some, ◌==◌, if◌then◌else◌}
use fsmtp_v.Base.Text.{Bytes, back, pop_back, getlines}

-- `if (!line.empty() && line[line.length() - 1] == '\r') line.pop_back();`
unfoldable pub strip_return : Bytes → Bytes
strip_return line = if back line == 13 then pop_back line else line

-- `getMIMELines`.
unfoldable pub get_mime_lines : Bytes → List Bytes
get_mime_lines raw = map strip_return (getlines 10 raw)

abbrev pub line_end : Bytes
line_end = 13 ∷ 10 ∷ []

-- `getStringFromLines`.
unfoldable pub get_string_from_lines : List Bytes → Bytes
get_string_from_lines [] = []
get_string_from_lines (line ∷ lines) = line ++ line_end ++ get_string_from_lines lines

unfoldable pub skip_empty : List Bytes → Option (List Bytes)
skip_empty [] = none
skip_empty ([] ∷ lines) = skip_empty lines
skip_empty ((c ∷ line) ∷ lines) = some ((c ∷ line) ∷ lines)

-- `splitMIMEBodyAndHeaders`: the lines of the headers and those of the body. `none` is a result with
-- an iterator that was never set: there is no empty line, or nothing stands behind the empty lines.
unfoldable pub split_mime_body_and_headers : List Bytes → Option (List Bytes × List Bytes)
split_mime_body_and_headers [] = none
split_mime_body_and_headers ([] ∷ lines) = elim (skip_empty lines) [
  | none ↦ none
  | some body ↦ some ([], body)
]
split_mime_body_and_headers ((c ∷ line) ∷ lines) = elim (split_mime_body_and_headers lines) [
  | none ↦ none
  | some (headers, body) ↦ some ((c ∷ line) ∷ headers, body)
]
