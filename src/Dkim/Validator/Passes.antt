-- ===== src/Dkim/Validator/Passes.antt =====
-- lib/dkim/DKIMValidator.src.cc, `validate`: which messages pass.
use mathlib.Core.List.{append-nil, append_assoc}
use fsmtp_v.Base.{
  true, List, [], ◌∷◌, ◌++◌, Option, none, some, ◌≡◌, refl, sym, ap, ◌∙◌, ◌↔◌, arith, Option-cases,
  inl, inr,
}
use fsmtp_v.Base.Text.{Bytes, codes}
use fsmtp_v.Mime.{get_mime_lines, get_string_from_lines, split_mime_body_and_headers}
use fsmtp_v.Mime.Headers.{MimeHeader, parse_headers}
use fsmtp_v.Models.EmailAddress.{ok, Attempt-cases}
use fsmtp_v.Dkim.Validator.{
  Env, Outcome, returned, SignatureResult, Validator, validated, new_validator, pass, fail, neutral,
  system_failure, validate_signature, other_headers, signatures_of, push_result, validate_all,
  is_valid, mark, marked, with_signatures, with_parts, validate,
}
use fsmtp_v.Dkim.Validator.Sound.{Verified, holds, validate_signature-Verified, Verified-holds}

-- The first signature of a message holds.
pub data FirstVerified (env : Env) (message : Bytes) : Type 0 where
  first_verified :
      (header_lines body_lines : List Bytes) (headers : List MimeHeader) (signature : Bytes)
      (others : List Bytes)
      → split_mime_body_and_headers (get_mime_lines message) ≡ some (header_lines, body_lines)
      → parse_headers true header_lines ≡ ok headers
      → signatures_of headers ≡ signature ∷ others
      → Verified env signature
          (get_string_from_lines body_lines)
          (get_string_from_lines (other_headers headers))
      → FirstVerified env message

push_result-holds :
    (o : Outcome) (v w : Validator)
    → push_result o v ≡ some w
    → (res : SignatureResult) × (w.sig_results ≡ v.sig_results ++ res ∷ [])
      × (w.type ≡ v.type)
      × (is_valid res.type ≡ holds o)
unfolding push_result is_valid
push_result-holds (returned res) v w h =
    let same : record v { sig_results = v.sig_results ++ res ∷ [] } ≡ w = cc in
    (res, ap (λ x. x.sig_results) (sym same), ap (λ x. x.type) (sym same), refl)
push_result-holds Outcome.thrown v w h =
    let res : SignatureResult = record {
      type = system_failure;
      details = codes "System failure, check logs";
    } in
    let same : record v { sig_results = v.sig_results ++ res ∷ [] } ≡ w = cc in
    (res, ap (λ x. x.sig_results) (sym same), ap (λ x. x.type) (sym same), refl)
push_result-holds Outcome.undefined v w h = absurd cc

validate_all-grows :
    (env : Env) (sigs : List Bytes) (body raw_headers : Bytes) (v w : Validator)
    → validate_all env sigs body raw_headers v ≡ some w
    → (more : List SignatureResult) × (w.sig_results ≡ v.sig_results ++ more) × (w.type ≡ v.type)
unfolding validate_all
validate_all-grows env [] body raw_headers v w h =
    let same : v ≡ w = cc in
    (
      [],
      ap (λ x. x.sig_results) (sym same) ∙ sym (append-nil v.sig_results),
      ap (λ x. x.type) (sym same),
    )
validate_all-grows env (sig ∷ sigs) body raw_headers v w h =
    elim (Option-cases (push_result (validate_signature env sig body raw_headers) v)) [
      | inl e ↦ absurd (ground (arith, e))
      | inr (v2, e) ↦
          let (res, adds, keeps, _) = push_result-holds _ v v2 e in
          let (more, grows, stays) =
            validate_all-grows env sigs body raw_headers v2 w (rw (e, validate_all) at h) in
          (
            res ∷ more,
            grows
                ∙ ap (λ (rs : List SignatureResult). rs ++ more) adds
                ∙ append_assoc v.sig_results (res ∷ []) more,
            stays ∙ keeps,
          )
    ]

mark_pass : (results : List SignatureResult) → mark results pass ≡ pass
unfolding mark
mark_pass [] = refl
mark_pass (res ∷ results) = ground (arith, mark_pass results)

mark_first :
    (res : SignatureResult) (results : List SignatureResult)
    → (mark (res ∷ results) fail ≡ pass) ↔ (is_valid res.type ≡ true)
unfolding mark
mark_first res results = ground (arith, mark_pass results)

first_result :
    (env : Env) (sig : Bytes) (sigs : List Bytes) (body raw_headers : Bytes) (v : Validator)
    → validate_all env (sig ∷ sigs) body raw_headers new_validator ≡ some v
    → (res : SignatureResult) × (more : List SignatureResult) × (v.sig_results ≡ res ∷ more)
      × (v.type ≡ fail)
      × (is_valid res.type ≡ holds (validate_signature env sig body raw_headers))
unfolding validate_all
first_result env sig sigs body raw_headers v h =
    elim (Option-cases (push_result (validate_signature env sig body raw_headers) new_validator)) [
      | inl e ↦ absurd (ground (arith, e))
      | inr (v2, e) ↦
          let (res, adds, keeps, same) = push_result-holds _ new_validator v2 e in
          let (more, grows, stays) =
            validate_all-grows env sigs body raw_headers v2 v (rw (e, validate_all) at h) in
          (
            res,
            more,
            grows ∙ ap (λ (rs : List SignatureResult). rs ++ more) adds,
            stays ∙ keeps,
            same,
          )
    ]

marked-pass :
    (v w : Validator) (res : SignatureResult) (more : List SignatureResult)
    → v.sig_results ≡ res ∷ more
    → v.type ≡ fail
    → marked (some v) ≡ validated w
    → (w.type ≡ pass) ↔ (is_valid res.type ≡ true)
unfolding marked
marked-pass v w res more results failed h =
    let same : record v { type = mark v.sig_results v.type } ≡ w = cc in
    let typed : w.type ≡ mark (res ∷ more) fail =
      ap (λ x. x.type) (sym same) ∙ rw (results, failed) refl in
    rw typed (mark_first res more)

with_signatures-pass :
    (env : Env) (sig : Bytes) (sigs : List Bytes) (body raw_headers : Bytes) (w : Validator)
    → with_signatures env (sig ∷ sigs) body raw_headers new_validator ≡ validated w
    → (w.type ≡ pass) ↔ (holds (validate_signature env sig body raw_headers) ≡ true)
unfolding with_signatures marked
with_signatures-pass env sig sigs body raw_headers w h =
    elim (Option-cases (validate_all env (sig ∷ sigs) body raw_headers new_validator)) [
      | inl e ↦ absurd (ground (arith, e))
      | inr (v, e) ↦
          let (res, more, results, failed, same) = first_result env sig sigs body raw_headers v e in
          rw (sym same) (marked-pass v w res more results failed (rw (e, with_signatures) at h))
    ]

module _ (env : Env) (message : Bytes) (w : Validator) where
  passes_with :
      (header_lines body_lines : List Bytes) (headers : List MimeHeader) (sigs : List Bytes)
      → split_mime_body_and_headers (get_mime_lines message) ≡ some (header_lines, body_lines)
      → parse_headers true header_lines ≡ ok headers
      → signatures_of headers ≡ sigs
      → with_signatures env sigs
          (get_string_from_lines body_lines)
          (get_string_from_lines (other_headers headers))
          new_validator
        ≡ validated w
      → w.type ≡ pass
      → FirstVerified env message
  unfolding with_signatures
  passes_with header_lines body_lines headers [] splits parses lists h p =
      let same : record new_validator {
        type = neutral;
        details = codes "No DKIM-Signatures found in headers";
      }
          ≡ w =
        cc in
      let typed = ap (λ x. x.type) same in absurd cc
  passes_with header_lines body_lines headers (sig ∷ sigs) splits parses lists h p =
      first_verified header_lines body_lines headers sig sigs splits parses lists
        (validate_signature-Verified env sig _ _ ((with_signatures-pass env sig sigs _ _ w h).0 p))

  passes_split :
      (parts : Option (List Bytes × List Bytes))
      → split_mime_body_and_headers (get_mime_lines message) ≡ parts
      → with_parts env new_validator parts ≡ validated w
      → w.type ≡ pass
      → FirstVerified env message
  unfolding with_parts
  passes_split none splits h p = absurd cc
  passes_split (some (header_lines, body_lines)) splits h p =
      elim (Attempt-cases (parse_headers true header_lines)) [
        | inl (what, e) ↦ absurd (ground (arith, e))
        | inr (headers, e) ↦
            passes_with header_lines body_lines headers (signatures_of headers) splits e refl
              (rw (e, with_parts) at h) p
      ]

  FirstVerified-pass :
      validate env message new_validator ≡ validated w → FirstVerified env message → w.type ≡ pass
  unfolding validate with_parts
  FirstVerified-pass h
        (first_verified header_lines body_lines headers sig sigs splits parses lists holding) =
      (with_signatures-pass env sig sigs _ _ w
          (rw (validate, splits, with_parts, parses, lists) at h)).1
        (Verified-holds env sig _ _ holding)

  -- A validator that ends passes a message where its first signature holds, and only there.
  pub validate-FirstVerified :
      validate env message new_validator ≡ validated w → (w.type ≡ pass) ↔ FirstVerified env message
  unfolding validate
  validate-FirstVerified h = (passes_split _ refl h, FirstVerified-pass h)
