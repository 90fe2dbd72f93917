-- ===== src/General/Encoding.antt =====
-- lib/general/encoding.src.cc: texts for HTML.
use fsmtp_v.Base.{ℕ, [], ◌∷◌, ◌++◌, ◌==◌, if◌then◌else◌}
use fsmtp_v.Base.Text.{Bytes, codes}

unfoldable pub escape_char : ℕ → Bytes
escape_char c =
    if c == b'&'
    then codes "&amp;"
    else if c == b'"'
    then codes "&quot;"
    else if c == b'\''
    then codes "&apos;"
    else if c == b'<'
    then codes "&lt;"
    else if c == b'>'
    then codes "&gt;"
    else c ∷ []

-- `escapeHTML`.
unfoldable pub escape_html : Bytes → Bytes
unfolding escape_char
escape_html [] = []
escape_html (c ∷ raw) = escape_char c ++ escape_html raw
