-- ===== src/Mime/Headers.antt =====
-- lib/mime/mimev2.src.cc, `joinHeaders` and `_parseHeaders`: the headers of a message from its lines.
use fsmtp_v.Base.{
  ℕ, suc, Bool, false, ◌||◌, List, [], ◌∷◌, ◌++◌, none, some, ◌==◌, if◌then◌else◌, map, take, drop,
}
use fsmtp_v.Base.Text.{Bytes, codes, find_first_of, front, back, erase_front, tolower}
use fsmtp_v.General.Cleanup.{reduce_loop}
use fsmtp_v.Models.EmailAddress.{Attempt, ok, throws}

pub record MimeHeader : Type 0 where
  pub key : Bytes
  pub value : Bytes

abbrev pub is_indent : ℕ → Bool
is_indent c = c == b' ' || c == 9

-- `erase(0, find_first_not_of(c))`.
unfoldable pub erase_leading : ℕ → Bytes → Bytes
erase_leading c [] = []
erase_leading c (x ∷ s) = let rest = erase_leading c s in if x == c then rest else x ∷ s

-- What an indented line adds to the buffer behind the line `previous`.
unfoldable pub continuation : Bytes → Bytes → Bytes
unfolding erase_leading
continuation previous line =
    (if back previous == b';' then b' ' ∷ [] else []) ++ erase_leading 9 (erase_leading b' ' line)

-- The rest of the lines, with the header that is open in the buffer and its last line.
unfoldable pub join_loop : Bytes → Bytes → List Bytes → List Bytes
unfolding continuation
join_loop buffer previous [] = buffer ∷ []
join_loop buffer previous (line ∷ lines) =
    let more = join_loop (buffer ++ continuation previous line) line lines in
    let next = join_loop line line lines in if is_indent (front line) then more else buffer ∷ next

-- `joinHeaders`. It also reads the line behind the last one, which is the empty line behind the
-- headers where the MIME parser calls it.
unfoldable pub join_headers : List Bytes → List Bytes
unfolding join_loop
join_headers [] = []
join_headers (line ∷ lines) = join_loop line line lines

-- The lambda `a`: spaces are reduced, and one at the front goes; the test for one at the end reads
-- the terminating zero.
unfoldable pub header_text : Bytes → Bytes
header_text str =
    let res = reduce_loop false str in if front res == b' ' then erase_front res else res

unfoldable pub split_header : Bool → Bytes → Attempt MimeHeader
unfolding header_text
split_header lower_key header = elim (find_first_of b':' header) [
  | none ↦ throws (codes "Could not find k/v pair for header: " ++ header)
  | some sep ↦
      let key = header_text (take sep header) in
      ok (record {
        key = if lower_key then map tolower key else key;
        value = header_text (drop (suc sep) header);
      })
]

unfoldable pub split_all : Bool → List Bytes → Attempt (List MimeHeader)
unfolding split_header
split_all lower_key [] = ok []
split_all lower_key (header ∷ headers) =
    let rest = split_all lower_key headers in
    elim (split_header lower_key header) [
      | throws what ↦ throws what
      | ok h ↦ elim rest [ throws what ↦ throws what | ok hs ↦ ok (h ∷ hs) ]
    ]

-- `_parseHeaders`; `parseHeaders` calls it without the lower case.
unfoldable pub parse_headers : Bool → List Bytes → Attempt (List MimeHeader)
unfolding split_all join_headers
parse_headers lower_key lines = split_all lower_key (join_headers lines)
