-- ===== src/General/Cleanup.antt =====
-- lib/general/cleanup.src.cc: white space at the ends of a text and between its words.
pub mod Words
use fsmtp_v.Base.{Bool, true, false, ◌&&◌, [], ◌∷◌, ltb, ◌==◌, if◌then◌else◌, length}
use fsmtp_v.Base.Text.{Bytes, front, back, pop_back, erase_front}

-- One space off each end; the second test reads the text that the first has left.
unfoldable pub remove_first_and_last_white : Bytes → Bytes
remove_first_and_last_white str =
    if ltb (length str) 2
    then str
    else let cut = if front str == b' ' then erase_front str else str in
      if back cut == b' ' then pop_back cut else cut

-- The loop over `raw`; the flag is `lww`, set behind a space and cleared behind any other byte.
unfoldable pub reduce_loop : Bool → Bytes → Bytes
reduce_loop lww [] = []
reduce_loop lww (c ∷ raw) =
    let rest = reduce_loop (c == b' ') raw in if c == b' ' && lww then rest else c ∷ rest

-- What it appends to an empty `ret`.
unfoldable pub reduce_whitespace : Bytes → Bytes
reduce_whitespace raw = remove_first_and_last_white (reduce_loop false raw)

unfoldable pub remove_string_quotes : Bytes → Bytes
remove_string_quotes str =
    if ltb (length str) 2
    then str
    else let cut = if front str == b'"' then erase_front str else str in
      if back cut == b'"' then pop_back cut else cut
