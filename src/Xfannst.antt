-- ===== src/Xfannst.antt =====
-- lib/xfannst/XFannstFlags.src.cc: the header by which the mailer asks the server not to store a
-- sent message, or not to report errors.
use fsmtp_v.Base.{
  ℕ, suc, Bool, true, false, List, [], ◌∷◌, map, none, some, if◌then◌else◌, take, drop, bit_or,
}
use fsmtp_v.Base.Text.{Bytes, codes, beq, find_first_of, tolower}
use fsmtp_v.Base.Segments.{segments, trim_one}
use fsmtp_v.Smtp.Session.{XFannstFlags, has_bits}

-- `_FSMTP_XFANNST_FLAG_STORAGE_NOSTORE` and `_FSMTP_XFANNST_FLAG_MAILER_NOERROR`, both `_BV(1)`.
abbrev pub no_store : ℕ
no_store = 2

abbrev pub no_error : ℕ
no_error = 2

-- `parseDB` and `parseMailer` over the pieces of a value.
unfoldable pub parse_db : XFannstFlags → List Bytes → XFannstFlags
parse_db f [] = f
parse_db f (seg ∷ segs) =
    parse_db
      (if beq seg (codes "nstore")
        then record f { storage_flags = bit_or f.storage_flags no_store }
        else f)
      segs

unfoldable pub parse_mailer : XFannstFlags → List Bytes → XFannstFlags
parse_mailer f [] = f
parse_mailer f (seg ∷ segs) =
    parse_mailer
      (if beq seg (codes "nerror")
        then record f { mailer_flags = bit_or f.mailer_flags no_error }
        else f)
      segs

-- Below, a key and its value go through `tolower` and lose one space at each end.
abbrev pub clean : Bytes → Bytes
clean s = trim_one (map tolower s)

unfoldable pub parse_pair : XFannstFlags → Bytes → Bytes → XFannstFlags
unfolding parse_db parse_mailer
parse_pair f key value =
    if beq key (codes "mailer")
    then parse_mailer f (segments b':' value)
    else if beq key (codes "db")
    then parse_db f (segments b':' value)
    else f

-- The loop over the segments: at one without `=` it throws, and what was parsed before stays. The
-- flag is false if it has thrown.
unfoldable pub parse_segments : XFannstFlags → List Bytes → XFannstFlags × Bool
unfolding parse_pair
parse_segments f [] = (f, true)
parse_segments f (seg ∷ segs) = elim (find_first_of b'=' seg) [
  | none ↦ (f, false)
  | some sep ↦
      parse_segments (parse_pair f (clean (take sep seg)) (clean (drop (suc sep) seg))) segs
]

unfoldable pub parse : XFannstFlags → Bytes → XFannstFlags × Bool
unfolding parse_segments
parse f raw = parse_segments f (segments b';' raw)

abbrev pub get_no_store : XFannstFlags → Bool
get_no_store f = has_bits f.storage_flags no_store

abbrev pub get_no_error : XFannstFlags → Bool
get_no_error f = has_bits f.mailer_flags no_error
