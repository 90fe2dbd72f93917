-- ===== src/Tests/DkimRun.antt =====
-- lib/dkim: a message with a signature.
use fsmtp_v.Base.Numbers.{to_string, to_string_signed}
use fsmtp_v.Dkim.Header.{
  Header, new_header, done, build, header_string, colons, build_header_from_segments, segments_text,
  pairs_of, canon_alg_pair_to_string, alg_to_string,
}
use fsmtp_v.Dkim.Header.RoundTrip.{IsPlain, parse-build}
use fsmtp_v.Dkim.Canonicalization.Headers.Order.{well_formed, picks, relaxed_headers-picks}
use fsmtp_v.Builders.{fold_pieces}
use fsmtp_v.Builders.Fold.{unfolded, Fits, fold_pieces-Folds}
use fsmtp_v.Base.{
  inr, true, true, suc, length, All, drop, none, arith, [], ◌∷◌, ◌++◌, some, ◌≡◌, ◌↔◌, refl,
  if◌then◌else◌,
}
use fsmtp_v.Base.Text.{Bytes, codes, beq, is_prefix, find_first_of, tolower, getlines}
use fsmtp_v.Dkim.Validator.{
  Env, Validator, validated, new_validator, pass, signature_valid, validate, with_parts,
  with_signatures, validate_all, validate_signature, with_header, with_body, with_record,
  verify_cut, verify_canonical, verify_erased, verdict, erase_end, presigned, up_to_signature,
  query_of, key_of, canonical_body, canonical_headers, other_headers, signatures_of, push_result,
  mark, marked, is_valid,
}
use fsmtp_v.Dkim.Validator.Passes.{FirstVerified, validate-FirstVerified}
use fsmtp_v.Dkim.Record.{clean}
use fsmtp_v.Dkim.Record
use fsmtp_v.Dkim.Header.{
  store, parse_pair, parse_segment, and_then, parse_segments, parse, parse_canon_alg_pair,
  parse_algorithm,
}
use fsmtp_v.Dkim.Canonicalization.{
  trim_end, erase_empty, simple_body, reduce_line, strip_space, relaxed_body,
}
use fsmtp_v.Dkim.Canonicalization.Headers.{
  contains, key_at, relax_value, relax_at, and_pair, relaxed_lines, find_header, sort_headers,
  non_empty, relaxed_headers,
}
use fsmtp_v.Mime.Headers.{
  erase_leading, continuation, join_loop, join_headers, header_text, split_header, split_all,
  parse_headers,
}
use fsmtp_v.General.Cleanup.{reduce_loop}
use fsmtp_v.Base.Segments.{segments_loop, segments, trim_one}
use fsmtp_v.Mime.{
  line_end, strip_return, get_mime_lines, get_string_from_lines, skip_empty,
  split_mime_body_and_headers,
}

-- One body has a hash, and one signature is verified.
abbrev env : Env
env = record {
  body_hash = λ alg body. if beq body (codes "text\r\n") then codes "hash" else [];
  rsa_verify = λ alg signature signed key. some (beq signature (codes "sig"));
  texts = λ query. some (codes "v=DKIM1; p=key" ∷ []);
  redirects = λ query. some [];
}

abbrev message : Bytes
message =
    codes "From: a@b.org"
    ++ line_end
    ++ codes "DKIM-Signature: v=1; h=from; c=relaxed/relaxed; bh=hash; b=sig"
    ++ line_end
    ++ line_end
    ++ codes "text"
    ++ line_end

abbrev passed : Validator
passed = record {
  type = pass;
  details = [];
  sig_results =
      record { type = signature_valid; details = codes "signature and body-hash are valid" } ∷ [];
}

message_passes : validate env message new_validator ≡ validated passed
unfolding validate beq is_prefix find_first_of tolower getlines strip_return get_mime_lines
    get_string_from_lines skip_empty split_mime_body_and_headers clean Record.parse_pair
    Record.parse_segment Record.and_then Record.parse_segments Record.parse Record.any_of
    Record.or_redirect Record.from_dns with_parts with_signatures validate_all validate_signature
    with_header with_body with_record verify_cut verify_canonical verify_erased verdict erase_end
    presigned up_to_signature query_of key_of canonical_body canonical_headers other_headers
    signatures_of push_result mark marked is_valid store parse_pair parse_segment and_then
    parse_segments parse parse_canon_alg_pair parse_algorithm trim_end erase_empty simple_body
    reduce_line strip_space relaxed_body contains key_at relax_value relax_at and_pair relaxed_lines
    find_header sort_headers non_empty relaxed_headers erase_leading continuation join_loop
    join_headers header_text split_header split_all parse_headers reduce_loop segments_loop segments
    trim_one
message_passes = refl

validate-FirstVerified_example : (passed.type ≡ pass) ↔ FirstVerified env message
validate-FirstVerified_example = validate-FirstVerified env message passed message_passes

abbrev written : Header
written = record new_header {
  body_hash = codes "hash";
  signature = codes "sig";
  key_selector = codes "k";
  domain = codes "b.org";
  headers = codes "from" ∷ codes "to" ∷ [];
  expire_date = 9;
  sign_date = 8;
}

abbrev written_text : Bytes
written_text =
    codes
      "DKIM-Signature: v=1; s=k; h=from:to; d=b.org; c=relaxed/relaxed; a=rsa-sha256; t=8; x=9; bh=hash; b=sig"

written-IsPlain : IsPlain written
unfolding tolower
written-IsPlain = record {
  selector = ground arith;
  domain = ground arith;
  body_hash = ground arith;
  signature = ground arith;
  names = ground arith;
  dated = inr (omega arith, omega arith, omega arith, omega arith);
}

parse-build_example : parse (drop 16 written_text) new_header ≡ done written
unfolding to_string to_string_signed build header_string colons build_header_from_segments
    segments_text pairs_of canon_alg_pair_to_string alg_to_string
parse-build_example = parse-build written written_text written-IsPlain refl

abbrev raw_headers : Bytes
raw_headers = codes "From: a\r\nTo: b\r\nfrom: c\r\n"

relaxed_headers-picks_example : relaxed_headers raw_headers (codes "from" ∷ []) ≡ (
    if well_formed (get_mime_lines raw_headers)
    then non_empty (picks (get_mime_lines raw_headers) (codes "from" ∷ []))
    else none)
relaxed_headers-picks_example = relaxed_headers-picks raw_headers (codes "from" ∷ [])

abbrev long_tag : Bytes
long_tag = codes "b=AbCdEfGhIjKl"

fold_pieces-Folds_example :
    (unfolded (fold_pieces (suc (length long_tag)) 12 true long_tag) ≡ long_tag)
    × All (Fits 12) (fold_pieces (suc (length long_tag)) 12 true long_tag)
fold_pieces-Folds_example = fold_pieces-Folds 12 long_tag (omega arith) (omega arith)
