-- ===== src/Dkim/Record.antt =====
-- lib/dkim/DKIMRecord.src.cc: the record of a DKIM key, from its text and from the DNS.
use fsmtp_v.Base.{
  ℕ, suc, Bool, true, false, List, [], ◌∷◌, ◌++◌, Option, none, some, bit_and, bit_or, ◌==◌,
  if◌then◌else◌, map, take, drop,
}
use fsmtp_v.Base.Text.{Bytes, codes, beq, find_first_of, pop_back, tolower}
use fsmtp_v.Base.Segments.{segments, trim_one}

-- The version and the algorithm have one value each, which every text gives.
pub record Record : Type 0 where
  pub flags : ℕ
  pub public_key : Bytes

-- A record behind a parser that ends, or one as far as it was read before the exception.
pub data Parsed : Type 0 where
  done stopped : Record → Parsed

-- What the search in the DNS gives; `undefined` is the first of no records.
pub data Found : Type 0 where
  found : Record → Found
  throws undefined : Found

abbrev pub testing : ℕ
testing = 1

abbrev pub same_domain : ℕ
same_domain = 2

abbrev pub allowed_hash_algo_sha256 : ℕ
allowed_hash_algo_sha256 = 4

abbrev pub allowed_hash_algo_sha1 : ℕ
allowed_hash_algo_sha1 = 8

abbrev pub allowed_service_email : ℕ
allowed_service_email = 16

abbrev pub new_record : Record
new_record = record { flags = 0; public_key = [] }

-- In lower case, and then without a space at either end.
unfoldable pub clean : Bytes → Bytes
clean s = trim_one (map tolower s)

unfoldable pub hash_flag : Bytes → ℕ
hash_flag seg =
    if beq seg (codes "sha1")
    then allowed_hash_algo_sha1
    else if beq seg (codes "sha256")
    then allowed_hash_algo_sha256
    else 0

unfoldable pub service_flag : Bytes → ℕ
service_flag seg = if beq seg (codes "email") then allowed_service_email else 0

unfoldable pub tag_flag : Bytes → ℕ
tag_flag seg =
    if beq seg (codes "y") then testing else if beq seg (codes "s") then same_domain else 0

-- The loop that the three lambdas share: each piece may set one flag.
unfoldable pub flags_loop : (Bytes → ℕ) → List Bytes → ℕ → ℕ
unfolding clean
flags_loop flag_of [] flags = flags
flags_loop flag_of (seg ∷ segs) flags = flags_loop flag_of segs (bit_or flags (flag_of (clean seg)))

unfoldable pub parse_flags : (Bytes → ℕ) → Bytes → Record → Record
unfolding flags_loop
parse_flags flag_of val r = record r { flags = flags_loop flag_of (segments b':' val) r.flags }

unfoldable pub parse_pair : Bytes → Bytes → Record → Record
unfolding parse_flags hash_flag service_flag tag_flag
parse_pair key val r =
    if beq key (codes "v")
    then r
    else if beq key (codes "p")
    then record r { public_key = val }
    else if beq key (codes "k")
    then r
    else if beq key (codes "h")
    then parse_flags hash_flag val r
    else if beq key (codes "s")
    then parse_flags service_flag (map tolower val) r
    else if beq key (codes "t")
    then parse_flags tag_flag (map tolower val) r
    else r

-- A segment; an empty one is passed over.
unfoldable pub parse_segment : Bytes → Record → Parsed
unfolding parse_pair clean
parse_segment [] r = done r
parse_segment (c ∷ seg) r = elim (find_first_of b'=' (c ∷ seg)) [
  | none ↦ stopped r
  | some sep ↦
      done (parse_pair (clean (take sep (c ∷ seg))) (trim_one (drop (suc sep) (c ∷ seg))) r)
]

unfoldable pub and_then : Parsed → (Record → Parsed) → Parsed
and_then (done r) next = next r
and_then (stopped r) next = stopped r

unfoldable pub parse_segments : List Bytes → Record → Parsed
unfolding parse_segment and_then
parse_segments [] r = done r
parse_segments (seg ∷ segs) r = and_then (parse_segment seg r) (parse_segments segs)

unfoldable pub parse : Bytes → Record → Parsed
unfolding parse_segments
parse raw r = parse_segments (segments b';' raw) r

abbrev has : ℕ → ℕ → Bool
has flags flag = bit_and flags flag == flag

-- A list of names, each with a slash behind it, without the last slash.
unfoldable pub allowed_hash_algos_string : ℕ → Bytes
allowed_hash_algos_string flags = pop_back (
    (if has flags allowed_hash_algo_sha256 then codes "SHA256/" else [])
    ++ (if has flags allowed_hash_algo_sha1 then codes "SHA1/" else []))

unfoldable pub allowed_services_string : ℕ → Bytes
allowed_services_string flags =
    pop_back (if has flags allowed_service_email then codes "Email/" else [])

-- The `any_of` over the texts of a domain, which ends at the first that cannot be read; the flag is
-- `found`.
unfoldable pub any_of : List Bytes → Record → Bool → Record × Bool
unfolding parse
any_of [] r seen = (r, seen)
any_of (text ∷ texts) r seen = elim (parse text r) [
  | done read ↦ any_of texts read true
  | stopped left ↦ (left, seen)
]

-- What `fromDNS` does behind the loop: `redirects` is the query for a CNAME record, and none for an
-- exception.
unfoldable pub or_redirect : Record × Bool → Option (List Bytes) → Found
or_redirect (r, true) redirects = found r
or_redirect (r, false) none = throws
or_redirect (r, false) (some []) = undefined
or_redirect (r, false) (some (text ∷ texts)) = found r

-- `fromDNS` on what the queries for TXT and for CNAME records give.
unfoldable pub from_dns : Option (List Bytes) → Option (List Bytes) → Found
unfolding any_of or_redirect
from_dns none redirects = throws
from_dns (some texts) redirects = or_redirect (any_of texts new_record false) redirects
