-- ===== src/Spf/Validator/Sound.antt =====
-- Who is allowed: some record that the domain leads to allows the address.
use fsmtp_v.Base.{
  ℕ, zero, suc, Option, none, some, Bool-cases, ◌≡◌, inl, inr, refl, ltb, length, ◌<◌, arith,
  get_elem?, ltb→lt,
}
use fsmtp_v.Base.Text.{Bytes}
use fsmtp_v.Spf.Record.{Record}
use fsmtp_v.Spf.Validator.Permits.{Permits, or_else-allowed, any_of-allowed}
use fsmtp_v.Spf.Validator.Permits.Checks.{validate_record-Permits}
use fsmtp_v.Spf.Validator.{
  Env, Protocol, Address, Verdict, allowed, any_of, from_dns, parse_address, validate_record,
  with_address, with_record, validate,
}

-- The policy of a domain allows the address: its record does, or the record that it redirects to, or
-- that of a domain that it includes.
pub data Passes (env : Env) (p : Protocol) (cmp : Bytes) : Bytes → Type 0 where
  by_record :
      (query : Bytes) (r : Record) (a : Address)
      → from_dns env query ≡ some r
      → length r.redirect ≡ 0
      → parse_address env p cmp ≡ some a
      → Permits env query a r
      → Passes env p cmp query
  by_redirect :
      (query : Bytes) (r : Record)
      → from_dns env query ≡ some r
      → 0 < length r.redirect
      → Passes env p cmp r.redirect
      → Passes env p cmp query
  by_include :
      (query domain : Bytes) (r : Record) (k : ℕ)
      → from_dns env query ≡ some r
      → length r.redirect ≡ 0
      → get_elem? r.domains k ≡ some domain
      → Passes env p cmp domain
      → Passes env p cmp query

module _ (env : Env) (p : Protocol) (cmp : Bytes) (again : Bytes → Verdict)
    (sound : (query details : Bytes) → again query ≡ allowed details → Passes env p cmp query) where
  with_address-Passes :
      (query : Bytes) (r : Record) (o : Option Address) (details : Bytes)
      → from_dns env query ≡ some r
      → length r.redirect ≡ 0
      → parse_address env p cmp ≡ o
      → with_address env again query r o ≡ allowed details
      → Passes env p cmp query
  unfolding with_address
  with_address-Passes query r none details found last e h = absurd cc
  with_address-Passes query r (some a) details found last e h =
      elim (or_else-allowed (validate_record env query a r) (any_of again r.domains) details h) [
        | inl (d, e') ↦
            by_record query r a found last e (validate_record-Permits env query a r d e')
        | inr e' ↦
            let there = any_of-allowed again r.domains details e' in
            by_include query (there.1) r (there.0) found last (there.2)
              (sound (there.1) (there.3.0) (there.3.1))
      ]

  with_record-Passes :
      (query : Bytes) (o : Option Record) (details : Bytes)
      → from_dns env query ≡ o
      → with_record env p again query cmp o ≡ allowed details
      → Passes env p cmp query
  unfolding with_record
  with_record-Passes query none details found h = absurd cc
  with_record-Passes query (some r) details found h =
      elim (Bool-cases (ltb 0 (length r.redirect))) [
        | inl more ↦
            let moved : again r.redirect ≡ allowed details = ground (arith, more, h) in
            by_redirect query r found (ltb→lt 0 (length r.redirect) more)
              (sound r.redirect details moved)
        | inr last ↦
            let here : with_address env again query r (parse_address env p cmp) ≡ allowed details =
              ground (arith, last, h) in
            with_address-Passes query r (parse_address env p cmp) details found
              (ground (arith, last)) refl here
      ]

-- Whatever the depth of the calls is, an address that is allowed is one that a record allows to which
-- the domain leads by redirections and inclusions, in one of these ways:
-- it is in a listed range, it is the address of a mail exchanger or of a host that the record lets
-- send, or its reverse name ends in a listed name. As the code has it, `mx:` with a domain counts the
-- mail exchangers of the queried domain, and a range is what the comparisons of addresses take for it.
pub validate-Passes :
    (fuel : ℕ) (env : Env) (p : Protocol) (cmp query details : Bytes)
    → validate fuel env p cmp query ≡ allowed details
    → Passes env p cmp query
unfolding validate
validate-Passes zero env p cmp query details h = absurd cc
validate-Passes (suc fuel) env p cmp query details h =
    with_record-Passes env p cmp (validate fuel env p cmp)
      (λ q d e. validate-Passes fuel env p cmp q d e) query (from_dns env query) details refl h
