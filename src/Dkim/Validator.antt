-- ===== src/Dkim/Validator.antt =====
-- lib/dkim/DKIMValidator.src.cc: whether the signatures of a message hold.
use fsmtp_v.Base.{
  ℕ, suc, Bool, true, false, List, [], ◌∷◌, ◌++◌, Option, none, some, ◌==◌, if◌then◌else◌, take,
}
use fsmtp_v.Base.Text.{Bytes, codes, beq, is_prefix, pop_back}
use fsmtp_v.Base.Numbers.{to_string}
use fsmtp_v.Mime.{get_mime_lines, get_string_from_lines, split_mime_body_and_headers}
use fsmtp_v.Mime.Headers.{MimeHeader, parse_headers}
use fsmtp_v.Models.EmailAddress.{ok, throws}
use fsmtp_v.Dkim.Canonicalization.{simple_body, relaxed_body}
use fsmtp_v.Dkim.Canonicalization.Headers.{simple_headers, relaxed_headers}
use fsmtp_v.Dkim.Header.{
  Header, new_header, Algorithm, CanonAlgPair, relaxed_relaxed, relaxed_simple, simple_relaxed,
  simple_simple, rsa_sha256, rsa_sha1, done, parse,
}
use fsmtp_v.Dkim.Header
use fsmtp_v.Dkim.Record.{Found, found, from_dns}
use fsmtp_v.Dkim.Record
pub mod Sound
pub mod Passes

-- OpenSSL and the DNS. None is a `runtime_error`.
pub record Env : Type 0 where
  -- `sha1base64` or `sha256base64`
  pub body_hash : Algorithm → Bytes → Bytes
  -- `RSAverify` on the signature, the signed text and the key
  pub rsa_verify : Algorithm → Bytes → Bytes → Bytes → Option Bool
  pub texts : Bytes → Option (List Bytes)
  pub redirects : Bytes → Option (List Bytes)

pub data SignatureType : Type 0 where
  signature_valid signature_invalid system_failure record_not_found : SignatureType

pub record SignatureResult : Type 0 where
  pub type : SignatureType
  pub details : Bytes

-- How the check of one signature ends.
pub data Outcome : Type 0 where
  returned : SignatureResult → Outcome
  thrown undefined : Outcome

pub data ResultType : Type 0 where
  pass fail system_error neutral : ResultType

pub record Validator : Type 0 where
  pub type : ResultType
  pub details : Bytes
  pub sig_results : List SignatureResult

-- How `validate` ends.
pub data Validated : Type 0 where
  validated : Validator → Validated
  thrown undefined : Validated

abbrev pub new_validator : Validator
new_validator = record { type = fail; details = []; sig_results = [] }

abbrev pub gives : SignatureType → Bytes → Outcome
gives t text = returned (record { type = t; details = text })

unfoldable pub canonical_body : CanonAlgPair → Bytes → Option Bytes
canonical_body relaxed_relaxed body = relaxed_body body
canonical_body simple_relaxed body = relaxed_body body
canonical_body relaxed_simple body = simple_body body
canonical_body simple_simple body = simple_body body

unfoldable pub canonical_headers : CanonAlgPair → Bytes → List Bytes → Option Bytes
canonical_headers relaxed_relaxed raw filter = relaxed_headers raw filter
canonical_headers relaxed_simple raw filter = relaxed_headers raw filter
canonical_headers simple_relaxed raw filter = simple_headers raw filter
canonical_headers simple_simple raw filter = simple_headers raw filter

unfoldable pub query_of : Header → Bytes
query_of header = header.key_selector ++ codes "._domainkey." ++ header.domain

-- The signature up to its first `b=`, that included; none without one.
unfoldable pub up_to_signature : Bytes → Option Bytes
up_to_signature [] = none
up_to_signature (c ∷ s) =
    let rest = up_to_signature s in
    if is_prefix (codes "b=") (c ∷ s)
    then some (codes "b=")
    else elim rest [ none ↦ none | some t ↦ some (c ∷ t) ]

-- The headers that are canonicalized: the other ones, and the signature without its value.
unfoldable pub presigned : Bytes → Bytes → Bytes
presigned raw_headers cut = raw_headers ++ codes "DKIM-Signature: " ++ cut ++ 13 ∷ 10 ∷ []

-- `erase(end() - 2, end())`; none is the erasure in front of the text.
unfoldable pub erase_end : Bytes → Option Bytes
erase_end [] = none
erase_end (x ∷ []) = none
erase_end (x ∷ y ∷ s) = some (pop_back (pop_back (x ∷ y ∷ s)))

abbrev pub failed_text : Algorithm → Bytes
failed_text rsa_sha1 = codes "RSA-SHA1 Signature invalid"
failed_text rsa_sha256 = codes "RSA-SHA256 Signature invalid"

unfoldable pub verdict : Algorithm → Option Bool → Outcome
verdict alg none = Outcome.thrown
verdict alg (some true) = gives signature_valid (codes "signature and body-hash are valid")
verdict alg (some false) = gives signature_invalid (failed_text alg)

unfoldable pub verify_erased : Env → Header → Record.Record → Option Bytes → Outcome
unfolding verdict
verify_erased env header key none = Outcome.undefined
verify_erased env header key (some signed) =
    verdict header.header_algorithm
      (env.rsa_verify header.header_algorithm header.signature signed key.public_key)

unfoldable pub verify_canonical : Env → Header → Record.Record → Option Bytes → Outcome
unfolding verify_erased erase_end
verify_canonical env header key none = Outcome.thrown
verify_canonical env header key (some canonical) =
    verify_erased env header key (erase_end canonical)

abbrev pub filter_of : Header → List Bytes
filter_of header = header.headers ++ codes "dkim-signature" ∷ []

unfoldable pub verify_cut : Env → Header → Bytes → Record.Record → Option Bytes → Outcome
unfolding verify_canonical canonical_headers presigned
verify_cut env header raw_headers key none =
    gives signature_invalid (codes "No signature found in the DKIM-Signature header")
verify_cut env header raw_headers key (some cut) =
    verify_canonical env header key
      (canonical_headers header.canon_alg_pair (presigned raw_headers cut) (filter_of header))

unfoldable pub with_record : Env → Header → Bytes → Bytes → Found → Outcome
unfolding verify_cut up_to_signature query_of
with_record env header signature raw_headers (found key) =
    verify_cut env header raw_headers key (up_to_signature signature)
with_record env header signature raw_headers Found.throws =
    gives record_not_found (codes "No record found for query: '" ++ query_of header ++ b'\'' ∷ [])
with_record env header signature raw_headers Found.undefined = Outcome.undefined

-- The search for the key of a header.
unfoldable pub key_of : Env → Header → Found
unfolding query_of
key_of env header = from_dns (env.texts (query_of header)) (env.redirects (query_of header))

unfoldable pub with_body : Env → Header → Bytes → Bytes → Option Bytes → Outcome
unfolding with_record key_of
with_body env header signature raw_headers none = Outcome.undefined
with_body env header signature raw_headers (some body) =
    let hash = env.body_hash header.header_algorithm body in
    let checked = with_record env header signature raw_headers (key_of env header) in
    if beq hash header.body_hash
    then checked
    else gives signature_invalid (codes "body-hash invalid, expected: " ++ hash)

unfoldable pub with_header : Env → Bytes → Bytes → Bytes → Header.Parsed → Outcome
unfolding with_body canonical_body
with_header env signature body raw_headers (done header) =
    with_body env header signature raw_headers (canonical_body header.canon_alg_pair body)
with_header env signature body raw_headers Header.throws = Outcome.thrown
with_header env signature body raw_headers Header.undefined = Outcome.undefined

-- `validateSignature`.
unfoldable pub validate_signature : Env → Bytes → Bytes → Bytes → Outcome
unfolding with_header
validate_signature env signature body raw_headers =
    with_header env signature body raw_headers (parse signature new_header)

-- The headers of a message but its signatures, as text.
unfoldable pub other_headers : List MimeHeader → List Bytes
other_headers [] = []
other_headers (h ∷ hs) =
    let rest = other_headers hs in
    if beq h.key (codes "dkim-signature") then rest else (h.key ++ codes ": " ++ h.value) ∷ rest

unfoldable pub signatures_of : List MimeHeader → List Bytes
signatures_of [] = []
signatures_of (h ∷ hs) =
    let rest = signatures_of hs in
    if beq h.key (codes "dkim-signature") then h.value ∷ rest else rest

-- A result behind the ones that the validator has; an exception counts as a failure of the system. All
-- that `validateSignature`, the parsers and the hashes throw are `runtime_error`s, so the handler of
-- every other exception, whose text ends in "error unknown", is not reached.
unfoldable pub push_result : Outcome → Validator → Option Validator
push_result (returned res) v = some (record v { sig_results = v.sig_results ++ res ∷ [] })
push_result Outcome.thrown v =
    let res : SignatureResult = record {
      type = system_failure;
      details = codes "System failure, check logs";
    } in
    some (record v { sig_results = v.sig_results ++ res ∷ [] })
push_result Outcome.undefined v = none

-- The loop over the signatures; none is undefined behaviour.
unfoldable pub validate_all : Env → List Bytes → Bytes → Bytes → Validator → Option Validator
unfolding push_result validate_signature
validate_all env [] body raw_headers v = some v
validate_all env (sig ∷ sigs) body raw_headers v =
    elim (push_result (validate_signature env sig body raw_headers) v) [
      | none ↦ none
      | some v2 ↦ validate_all env sigs body raw_headers v2
    ]

unfoldable pub is_valid : SignatureType → Bool
is_valid signature_valid = true
is_valid signature_invalid = false
is_valid system_failure = false
is_valid record_not_found = false

-- The `any_of` over the results, which ends at the first that is not valid.
unfoldable pub mark : List SignatureResult → ResultType → ResultType
unfolding is_valid
mark [] t = t
mark (res ∷ results) t = let rest = mark results pass in if is_valid res.type then rest else t

unfoldable pub marked : Option Validator → Validated
unfolding mark
marked none = Validated.undefined
marked (some v) = validated (record v { type = mark v.sig_results v.type })

unfoldable pub with_signatures : Env → List Bytes → Bytes → Bytes → Validator → Validated
unfolding marked validate_all
with_signatures env [] body raw_headers v =
    validated (record v { type = neutral; details = codes "No DKIM-Signatures found in headers" })
with_signatures env (sig ∷ sigs) body raw_headers v =
    marked (validate_all env (sig ∷ sigs) body raw_headers v)

unfoldable pub with_parts : Env → Validator → Option (List Bytes × List Bytes) → Validated
unfolding with_signatures signatures_of other_headers
with_parts env v none = Validated.undefined
with_parts env v (some (header_lines, body_lines)) = elim (parse_headers true header_lines) [
  | throws what ↦ Validated.thrown
  | ok headers ↦
      with_signatures env (signatures_of headers) (get_string_from_lines body_lines)
        (get_string_from_lines (other_headers headers)) v
]

-- `validate`.
unfoldable pub validate : Env → Bytes → Validator → Validated
unfolding with_parts
validate env message v = with_parts env v (split_mime_body_and_headers (get_mime_lines message))

unfoldable pub type_text : ResultType → Bytes
type_text pass = codes "pass ("
type_text neutral = codes "neutral ("
type_text system_error = codes "error ("
type_text fail = codes "fail ("

-- The results from the number `i + 1` on.
unfoldable pub details_text : ℕ → List SignatureResult → Bytes
details_text i [] = []
details_text i (res ∷ []) = codes "signature " ++ to_string (suc i) ++ codes ": " ++ res.details
details_text i (res ∷ next ∷ results) =
    codes "signature "
    ++ to_string (suc i)
    ++ codes ": "
    ++ res.details
    ++ codes ", "
    ++ details_text (suc i) (next ∷ results)

abbrev all_details : Bytes → List SignatureResult → Bytes
all_details text [] = text
all_details text (res ∷ results) = details_text 0 (res ∷ results)

unfoldable pub get_result_string : Validator → Bytes
unfolding type_text details_text
get_result_string v = type_text v.type ++ all_details v.details v.sig_results ++ b')' ∷ []
