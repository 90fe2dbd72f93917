-- ===== src/Spf/Validator/Loops.antt =====
-- A redirection that comes back is followed for ever.
use fsmtp_v.Base.{ℕ, zero, suc, some, ◌≡◌, refl, length, ◌<◌, arith}
use fsmtp_v.Base.Text.{Bytes}
use fsmtp_v.Spf.Record.{Record}
use fsmtp_v.Spf.Validator.{Env, Protocol, Verdict, out_of_fuel, from_dns, with_record, validate}

with_record-redirect :
    (env : Env) (p : Protocol) (again : Bytes → Verdict) (query cmp : Bytes) (r : Record)
    → 0 < length r.redirect
    → with_record env p again query cmp (some r) ≡ again r.redirect
unfolding with_record
with_record-redirect env p again query cmp r h = ground (arith, h)

-- Domains that redirect to each other, as a set of domains each of whose records redirects into it:
-- the validation of one of them takes more steps than any bound.
pub validate-out_of_fuel :
    (env : Env) (p : Protocol) (cmp : Bytes) (Circle : Bytes → Type 0)
    → ((domain : Bytes)
        → Circle domain
        → (r : Record) × (from_dns env domain ≡ some r)
          × (0 < length r.redirect)
          × Circle r.redirect)
    → (fuel : ℕ) (query : Bytes) → Circle query
    → validate fuel env p cmp query ≡ out_of_fuel
unfolding validate
validate-out_of_fuel env p cmp Circle next zero query h = refl
validate-out_of_fuel env p cmp Circle next (suc fuel) query h =
    let step = next query h in
    rw (step.1, with_record-redirect env p (validate fuel env p cmp) query cmp (step.0) (step.2))
      (validate-out_of_fuel env p cmp Circle next fuel ((step.0).redirect) (step.3))
