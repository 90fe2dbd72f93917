-- ===== src/Http.antt =====
-- lib/http/HTTP.src.cc: the names of the protocol, and the first line of a request.
use fsmtp_v.Base.{
  ℕ, zero, suc, List, [], ◌∷◌, ◌++◌, Option, none, some, if◌then◌else◌, map, take, drop, bit_or,
}
use fsmtp_v.Base.Text.{Bytes, codes, beq, find_first_of, tolower}
use fsmtp_v.Base.Segments.{segments, trim_one}
use fsmtp_v.Mime.Headers.{MimeHeader}
use fsmtp_v.Models.EmailAddress.{Attempt, ok, throws}
pub mod RoundTrip

pub data Method : Type 0 where
  get post put head delete patch options : Method

pub data Version : Type 0 where
  http09 http10 http11 http2 http3 : Version

pub data Connection : Type 0 where
  keep_alive close : Connection

pub data Encoding : Type 0 where
  chunked deflate gzip compress identity : Encoding

unfoldable pub method_to_string : Method → Bytes
method_to_string get = codes "GET"
method_to_string post = codes "POST"
method_to_string put = codes "PUT"
method_to_string head = codes "HEAD"
method_to_string delete = codes "DELETE"
method_to_string patch = codes "PATCH"
method_to_string options = codes "OPTIONS"

abbrev quoted : Bytes → Bytes → Bytes
quoted what s = what ++ s ++ b'\'' ∷ []

unfoldable pub method_of_lower : Bytes → Attempt Method
method_of_lower s =
    if beq s (codes "get")
    then ok get
    else if beq s (codes "post")
    then ok post
    else if beq s (codes "put")
    then ok put
    else if beq s (codes "head")
    then ok head
    else if beq s (codes "delete")
    then ok delete
    else if beq s (codes "patch")
    then ok patch
    else if beq s (codes "options")
    then ok options
    else throws (quoted (codes "HTTP Method not supported: '") s)

unfoldable pub method_from_string : Bytes → Attempt Method
unfolding method_of_lower
method_from_string str = method_of_lower (map tolower str)

unfoldable pub version_to_string : Version → Bytes
version_to_string http09 = codes "HTTP/0.9"
version_to_string http10 = codes "HTTP/1.0"
version_to_string http11 = codes "HTTP/1.1"
version_to_string http2 = codes "HTTP/2"
version_to_string http3 = codes "HTTP/3"

unfoldable pub version_of_lower : Bytes → Attempt Version
version_of_lower s =
    if beq s (codes "http/0.9")
    then ok http09
    else if beq s (codes "http/1.0")
    then ok http10
    else if beq s (codes "http/1.1")
    then ok http11
    else if beq s (codes "http/2")
    then ok http2
    else if beq s (codes "http/3")
    then ok http3
    else throws (quoted (codes "HTTP version not supported: '") s)

unfoldable pub version_from_string : Bytes → Attempt Version
unfolding version_of_lower
version_from_string str = version_of_lower (map tolower str)

unfoldable pub connection_to_string : Connection → Bytes
connection_to_string keep_alive = codes "keep-alive"
connection_to_string close = codes "close"

unfoldable pub connection_of_lower : Bytes → Attempt Connection
connection_of_lower s =
    if beq s (codes "keep-alive")
    then ok keep_alive
    else if beq s (codes "close")
    then ok close
    else throws (quoted (codes "Invalid HTTP connection: '") s)

unfoldable pub connection_from_string : Bytes → Attempt Connection
unfolding connection_of_lower
connection_from_string raw = connection_of_lower (map tolower raw)

unfoldable pub encoding_to_string : Encoding → Bytes
encoding_to_string chunked = codes "chunked"
encoding_to_string deflate = codes "deflate"
encoding_to_string gzip = codes "gzip"
encoding_to_string compress = codes "compress"
encoding_to_string identity = codes "identity"

unfoldable pub encoding_of_lower : Bytes → Attempt Encoding
encoding_of_lower s =
    if beq s (codes "chunked")
    then ok chunked
    else if beq s (codes "deflate")
    then ok deflate
    else if beq s (codes "gzip")
    then ok gzip
    else if beq s (codes "compress")
    then ok compress
    else if beq s (codes "identity")
    then ok identity
    else throws (quoted (codes "Invalid HTTP encoding: '") s)

unfoldable pub encoding_from_string : Bytes → Attempt Encoding
unfolding encoding_of_lower
encoding_from_string raw = encoding_of_lower (map tolower raw)

-- `HTTPUri`; the host name and the protocol are not set by its parser.
pub record Uri : Type 0 where
  pub path : Bytes
  pub search : Bytes

unfoldable pub parse_uri : Bytes → Uri
parse_uri raw = elim (find_first_of b'?' raw) [
  | none ↦ record { path = raw; search = [] }
  | some sep ↦ record { path = take sep raw; search = drop (suc sep) raw }
]

-- `HTTPHead`; a method or a version is none as long as nothing has set it.
pub record Head : Type 0 where
  pub method : Option Method
  pub version : Option Version
  pub uri : Bytes

unfoldable pub set_method : Head → Attempt Method → Attempt Head
set_method h (ok m) = ok (record h { method = some m })
set_method h (throws what) = throws what

unfoldable pub set_version : Head → Attempt Version → Attempt Head
set_version h (ok v) = ok (record h { version = some v })
set_version h (throws what) = throws what

-- The `case` of the loop's counter.
unfoldable pub head_segment : ℕ → Bytes → Head → Attempt Head
unfolding set_method set_version
head_segment zero seg h = set_method h (method_from_string seg)
head_segment (suc zero) seg h = ok (record h { uri = seg })
head_segment (suc (suc zero)) seg h = set_version h (version_from_string seg)
head_segment (suc (suc (suc n))) seg h = ok h

unfoldable pub head_then : Attempt Head → (Head → Attempt Head) → Attempt Head
head_then (ok h) next = next h
head_then (throws what) next = throws what

-- `left` rounds of the loop, of which the next has the counter `i`, on what is left of the text
-- behind `start`.
unfoldable pub head_loop : ℕ → ℕ → Bytes → Head → Attempt Head
unfolding head_segment head_then
head_loop zero i raw h = ok h
head_loop (suc left) i raw h = elim (find_first_of b' ' raw) [
  | none ↦ head_segment i raw h
  | some end ↦
      head_then (head_segment i (take end raw) h) (head_loop left (suc i) (drop (suc end) raw))
]

abbrev pub unset : Head
unset = record { method = none; version = none; uri = [] }

unfoldable pub parse_head : Bytes → Attempt Head
unfolding head_loop
parse_head raw = head_loop 3 0 raw unset

-- `HTTPAllowedEncoding`.
abbrev pub flag_gzip : ℕ
flag_gzip = 2

abbrev pub flag_compress : ℕ
flag_compress = 4

abbrev pub flag_deflate : ℕ
flag_deflate = 8

-- A token of the header; an empty one is passed over.
unfoldable pub accept_token : Bytes → ℕ → ℕ
accept_token [] flags = flags
accept_token (c ∷ seg) flags =
    let token = map tolower (trim_one (c ∷ seg)) in
    if beq token (codes "compress")
    then bit_or flags flag_compress
    else if beq token (codes "gzip")
    then bit_or flags flag_gzip
    else if beq token (codes "deflate")
    then bit_or flags flag_deflate
    else flags

unfoldable pub accept_tokens : List Bytes → ℕ → ℕ
unfolding accept_token
accept_tokens [] flags = flags
accept_tokens (seg ∷ segs) flags = accept_tokens segs (accept_token seg flags)

-- `getAcceptEncoding`: the first header with the key counts.
unfoldable pub get_accept_encoding : List MimeHeader → ℕ
unfolding accept_tokens
get_accept_encoding [] = 0
get_accept_encoding (h ∷ hs) =
    let rest = get_accept_encoding hs in
    if beq h.key (codes "accept-encoding") then accept_tokens (segments b',' h.value) 0 else rest
