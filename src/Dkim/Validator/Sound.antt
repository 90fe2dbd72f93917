-- ===== src/Dkim/Validator/Sound.antt =====
-- lib/dkim/DKIMValidator.src.cc: what a signature that is valid, and a message that passes, has shown.
use fsmtp_v.Base.{
  Bool, true, false, Option, none, some, ◌≡◌, refl, ◌↔◌, arith, Bool-cases, Option-cases, inl, inr,
  sym, ◌∙◌, ◌++◌,
}
use fsmtp_v.Base.Text.{Bytes, codes, beq, beq_iff}
use fsmtp_v.Dkim.Header.{Header, new_header, Algorithm, done, parse}
use fsmtp_v.Dkim.Header
use fsmtp_v.Dkim.Record.{Found, found, from_dns}
use fsmtp_v.Dkim.Record
use fsmtp_v.Dkim.Validator.{
  Env, Outcome, returned, canonical_body, canonical_headers, up_to_signature, presigned, erase_end,
  verdict, verify_erased, verify_canonical, filter_of, verify_cut, with_record, key_of, query_of,
  with_body, with_header, validate_signature, is_valid,
}

-- The key that the DNS has for the selector and the domain of a signature.
abbrev pub signing_key : Env → Header → Found
signing_key env header =
    let name = header.key_selector ++ codes "._domainkey." ++ header.domain in
    from_dns (env.texts name) (env.redirects name)

key_of-signing_key : (env : Env) (header : Header) → key_of env header ≡ signing_key env header
unfolding key_of query_of
key_of-signing_key env header = refl

-- A signature of a body and of headers that holds: its hash is that of the canonical body, and the
-- key of its domain verifies it for the canonical headers, without the line end behind them.
pub data Verified (env : Env) (signature body raw_headers : Bytes) : Type 0 where
  verified :
      (header : Header) (key : Record.Record) (canonical cut covered signed : Bytes)
      → parse signature new_header ≡ done header
      → canonical_body header.canon_alg_pair body ≡ some canonical
      → env.body_hash header.header_algorithm canonical ≡ header.body_hash
      → signing_key env header ≡ found key
      → up_to_signature signature ≡ some cut
      → canonical_headers header.canon_alg_pair (presigned raw_headers cut) (filter_of header)
        ≡ some covered
      → erase_end covered ≡ some signed
      → env.rsa_verify header.header_algorithm header.signature signed key.public_key ≡ some true
      → Verified env signature body raw_headers

abbrev pub holds : Outcome → Bool
holds (returned res) = is_valid res.type
holds Outcome.thrown = false
holds Outcome.undefined = false

verdict-holds :
    (alg : Algorithm) (o : Option Bool) → (holds (verdict alg o) ≡ true) ↔ (o ≡ some true)
unfolding verdict is_valid
verdict-holds alg none = ground arith
verdict-holds alg (some true) = ground arith
verdict-holds alg (some false) = ground arith

module _ (env : Env) (header : Header) (key : Record.Record) where
  abbrev Accepts : Bytes → Type 0
  Accepts signed =
      env.rsa_verify header.header_algorithm header.signature signed key.public_key ≡ some true

  verify_erased-holds :
      (o : Option Bytes)
      → holds (verify_erased env header key o) ≡ true
      → (signed : Bytes) × (o ≡ some signed) × Accepts signed
  unfolding verify_erased
  verify_erased-holds none h = absurd cc
  verify_erased-holds (some signed) h =
      (signed, refl, (verdict-holds header.header_algorithm _).0 h)

  verify_canonical-holds :
      (o : Option Bytes)
      → holds (verify_canonical env header key o) ≡ true
      → (covered : Bytes) × (o ≡ some covered)
        × (signed : Bytes) × (erase_end covered ≡ some signed)
        × Accepts signed
  unfolding verify_canonical
  verify_canonical-holds none h = absurd cc
  verify_canonical-holds (some covered) h =
      let (signed, erases, accepts) = verify_erased-holds (erase_end covered) h in
      (covered, refl, signed, erases, accepts)

module _ (env : Env) (signature body raw_headers : Bytes) where
  with_record-holds :
      (header : Header) (canonical : Bytes) (f : Found)
      → parse signature new_header ≡ done header
      → canonical_body header.canon_alg_pair body ≡ some canonical
      → env.body_hash header.header_algorithm canonical ≡ header.body_hash
      → signing_key env header ≡ f
      → holds (with_record env header signature raw_headers f) ≡ true
      → Verified env signature body raw_headers
  unfolding with_record verify_cut is_valid
  with_record-holds header canonical Found.throws reads forms hashes finds h = absurd cc
  with_record-holds header canonical Found.undefined reads forms hashes finds h = absurd cc
  with_record-holds header canonical (found key) reads forms hashes finds h =
      elim (Option-cases (up_to_signature signature)) [
        | inl e ↦ absurd (ground (arith, e))
        | inr (cut, e) ↦
            let accepted = rw (e, verify_cut) at h in
            let (covered, covers, signed, erases, accepts) =
              verify_canonical-holds env header key _ accepted in
            verified header key canonical cut covered signed reads forms hashes finds e covers
              erases accepts
      ]

  with_body-holds :
      (header : Header) (o : Option Bytes)
      → parse signature new_header ≡ done header
      → canonical_body header.canon_alg_pair body ≡ o
      → holds (with_body env header signature raw_headers o) ≡ true
      → Verified env signature body raw_headers
  unfolding with_body is_valid
  with_body-holds header none reads forms h = absurd cc
  with_body-holds header (some canonical) reads forms h =
      elim (Bool-cases (beq (env.body_hash header.header_algorithm canonical) header.body_hash)) [
        | inl e ↦
            with_record-holds header canonical (key_of env header) reads forms
              ((beq_iff _ header.body_hash).0 e) (sym (key_of-signing_key env header))
              (rw (e, with_body) at h)
        | inr e ↦ absurd (ground arith)
      ]

  with_header-holds :
      (p : Header.Parsed)
      → parse signature new_header ≡ p
      → holds (with_header env signature body raw_headers p) ≡ true
      → Verified env signature body raw_headers
  unfolding with_header
  with_header-holds Header.throws reads h = absurd cc
  with_header-holds Header.undefined reads h = absurd cc
  with_header-holds (done header) reads h =
      with_body-holds header (canonical_body header.canon_alg_pair body) reads refl h

  -- Whoever is valid has been verified.
  pub validate_signature-Verified :
      holds (validate_signature env signature body raw_headers) ≡ true
      → Verified env signature body raw_headers
  unfolding validate_signature
  validate_signature-Verified h = with_header-holds (parse signature new_header) refl h

  pub Verified-holds :
      Verified env signature body raw_headers
      → holds (validate_signature env signature body raw_headers) ≡ true
  unfolding validate_signature with_header with_body with_record verify_cut verify_canonical
      verify_erased verdict is_valid
  Verified-holds
        (verified header key canonical cut covered signed reads forms hashes finds cuts covers
          erases accepts) =
      rw
        (
          validate_signature,
          reads,
          forms,
          (beq_iff _ _).1 hashes,
          key_of-signing_key env header ∙ finds,
          cuts,
          covers,
          erases,
          accepts,
        )
        refl
