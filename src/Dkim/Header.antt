-- ===== src/Dkim/Header.antt =====
-- lib/dkim/DKIMHeader.src.cc and `buildHeaderFromSegments` of lib/builders/mimev2.src.cc: the value of
-- a DKIM-Signature header, read and written.
pub mod Tags
pub mod RoundTrip
use fsmtp_v.Base.{
  ℕ, suc, Bool, not, ◌&&◌, List, [], ◌∷◌, ◌++◌, Option, none, some, ◌==◌, if◌then◌else◌, map, take,
  drop,
}
use fsmtp_v.Base.Text.{Bytes, codes, beq, find_first_of, front, pop_back, tolower}
use fsmtp_v.Base.Segments.{segments, trim_one}
use fsmtp_v.Base.Numbers.{Stol, long, invalid_argument, out_of_range, stol, to_string_signed}
use fsmtp_v.Dkim.Canonicalization.{strip_space}

-- The form of the headers and that of the body.
pub data CanonAlgPair : Type 0 where
  relaxed_relaxed relaxed_simple simple_relaxed simple_simple : CanonAlgPair

pub data Algorithm : Type 0 where
  rsa_sha256 rsa_sha1 : Algorithm

-- The version has one value. A date is a 64-bit pattern.
pub record Header : Type 0 where
  pub canon_alg_pair : CanonAlgPair
  pub header_algorithm : Algorithm
  pub body_hash : Bytes
  pub signature : Bytes
  pub key_selector : Bytes
  pub domain : Bytes
  pub headers : List Bytes
  pub expire_date : ℕ
  pub sign_date : ℕ

-- `undefined` is the erasure of a space at the front of a value, which takes its ends from the key.
pub data Parsed : Type 0 where
  done : Header → Parsed
  throws undefined : Parsed

abbrev pub new_header : Header
new_header = record {
  canon_alg_pair = relaxed_relaxed;
  header_algorithm = rsa_sha256;
  body_hash = [];
  signature = [];
  key_selector = [];
  domain = [];
  headers = [];
  expire_date = 0;
  sign_date = 0;
}

unfoldable pub canon_alg_pair_to_string : CanonAlgPair → Bytes
canon_alg_pair_to_string relaxed_relaxed = codes "relaxed/relaxed"
canon_alg_pair_to_string relaxed_simple = codes "relaxed/simple"
canon_alg_pair_to_string simple_relaxed = codes "simple/relaxed"
canon_alg_pair_to_string simple_simple = codes "simple/simple"

unfoldable pub alg_to_string : Algorithm → Bytes
alg_to_string rsa_sha1 = codes "rsa-sha1"
alg_to_string rsa_sha256 = codes "rsa-sha256"

unfoldable pub parse_canon_alg_pair : Bytes → CanonAlgPair
parse_canon_alg_pair val =
    if beq val (codes "relaxed/relaxed")
    then relaxed_relaxed
    else if beq val (codes "relaxed/simple")
    then relaxed_simple
    else if beq val (codes "simple/relaxed")
    then simple_relaxed
    else if beq val (codes "simple/simple")
    then simple_simple
    else relaxed_relaxed

unfoldable pub parse_algorithm : Bytes → Algorithm
parse_algorithm val =
    if beq val (codes "rsa-sha256")
    then rsa_sha256
    else if beq val (codes "rsa-sha1")
    then rsa_sha1
    else rsa_sha256

unfoldable pub date_of : Stol → ℕ
date_of (long v) = v
date_of invalid_argument = 0
date_of out_of_range = 0

unfoldable pub store : Bytes → Bytes → Header → Header
unfolding parse_canon_alg_pair parse_algorithm date_of
store key val h =
    if beq key (codes "v")
    then h
    else if beq key (codes "s")
    then record h { key_selector = val }
    else if beq key (codes "d")
    then record h { domain = val }
    else if beq key (codes "c")
    then record h { canon_alg_pair = parse_canon_alg_pair (map tolower val) }
    else if beq key (codes "a")
    then record h { header_algorithm = parse_algorithm (map tolower val) }
    else if beq key (codes "bh")
    then record h { body_hash = val }
    else if beq key (codes "b")
    then record h { signature = val }
    else if beq key (codes "h")
    then record h { headers = h.headers ++ segments b':' (map tolower val) }
    else if beq key (codes "x")
    then record h { expire_date = date_of (stol val) }
    else if beq key (codes "t")
    then record h { sign_date = date_of (stol val) }
    else h

unfoldable pub parse_pair : Bytes → Bytes → Header → Parsed
unfolding store
parse_pair key val h = if front val == b' ' then undefined else done (store key (strip_space val) h)

-- A segment; an empty one is passed over.
unfoldable pub parse_segment : Bytes → Header → Parsed
unfolding parse_pair
parse_segment [] h = done h
parse_segment (c ∷ seg) h = elim (find_first_of b'=' (c ∷ seg)) [
  | none ↦ throws
  | some sep ↦ parse_pair (map tolower (trim_one (take sep (c ∷ seg)))) (drop (suc sep) (c ∷ seg)) h
]

unfoldable pub and_then : Parsed → (Header → Parsed) → Parsed
and_then (done h) next = next h
and_then throws next = throws
and_then undefined next = undefined

unfoldable pub parse_segments : List Bytes → Header → Parsed
unfolding parse_segment and_then
parse_segments [] h = done h
parse_segments (seg ∷ segs) h = and_then (parse_segment seg h) (parse_segments segs)

unfoldable pub parse : Bytes → Header → Parsed
unfolding parse_segments
parse raw h = parse_segments (segments b';' raw) h

unfoldable pub colons : List Bytes → Bytes
colons [] = []
colons (h ∷ hs) = h ++ b':' ∷ colons hs

-- `getHeaderString`; none is `pop_back` of an empty text.
unfoldable pub header_string : List Bytes → Option Bytes
unfolding colons
header_string [] = none
header_string (h ∷ hs) = some (pop_back (colons (h ∷ hs)))

unfoldable pub segments_text : List (Bytes × Bytes) → Bytes
segments_text [] = []
segments_text (p ∷ []) = p.0 ++ b'=' ∷ p.1
segments_text (p ∷ q ∷ ps) = p.0 ++ (b'=' ∷ p.1) ++ codes "; " ++ segments_text (q ∷ ps)

unfoldable pub build_header_from_segments : Option Bytes → List (Bytes × Bytes) → Bytes
unfolding segments_text
build_header_from_segments none segs = segments_text segs
build_header_from_segments (some label) segs = label ++ codes ": " ++ segments_text segs

abbrev dates : Header → List (Bytes × Bytes)
dates h =
    if not (h.expire_date == 0) && not (h.sign_date == 0)
    then (codes "t", to_string_signed h.sign_date)
      ∷ (codes "x", to_string_signed h.expire_date)
      ∷ []
    else []

-- The pairs that `build` writes, with the text of the list of headers.
unfoldable pub pairs_of : Header → Bytes → List (Bytes × Bytes)
unfolding canon_alg_pair_to_string alg_to_string
pairs_of h names =
    ((codes "v", codes "1")
      ∷ (codes "s", h.key_selector)
      ∷ (codes "h", names)
      ∷ (codes "d", h.domain)
      ∷ (codes "c", canon_alg_pair_to_string h.canon_alg_pair)
      ∷ (codes "a", alg_to_string h.header_algorithm)
      ∷ [])
    ++ dates h
    ++ (codes "bh", h.body_hash) ∷ (codes "b", h.signature) ∷ []

-- `build`.
unfoldable pub build : Header → Option Bytes
unfolding header_string build_header_from_segments pairs_of
build h = elim (header_string h.headers) [
  | none ↦ none
  | some names ↦
      some (build_header_from_segments (some (codes "DKIM-Signature")) (pairs_of h names))
]
