-- ===== src/Smtp/Relay/Auth.antt =====
-- The handlers that greet, secure and authenticate keep the invariant.
use fsmtp_v.Base.{true, false, List, ◌≡◌, arith, ◌-◌, ◌^◌}
use fsmtp_v.Base.Text.{Bytes}
use fsmtp_v.Base.{refl, [], ◌∷◌, inl, inr, Bool-cases}
use fsmtp_v.Models.Account.{AccountShortcut}
use fsmtp_v.Models.EmailAddress.{ok, Attempt-cases}
use fsmtp_v.Smtp.Session.{get_action}
use fsmtp_v.Smtp.Session.Flag
use fsmtp_v.Smtp.Session.Action
use fsmtp_v.Smtp.Session.Laws.{has_bits-set, has_bits-set_other, has_bits-clear_other}
use fsmtp_v.Smtp.Reply.{Reply}
use fsmtp_v.Smtp.Conn.{Conn}
use fsmtp_v.Smtp.Handlers.{Env, handle_hello, handle_start_tls}
use fsmtp_v.Smtp.Handlers.Auth.{
  auth_verify, handle_auth, handle_su, finish_auth, Verified, verified, failed, failed_after,
}
use fsmtp_v.Smtp.Relay.{Known, ConnInv, OutcomeInv}

module _ (L : Known) where
  pub handle_hello-Inv :
      (r : Reply) (args : List Bytes) (c : Conn)
      → ConnInv L c
      → OutcomeInv L (handle_hello r args c)
  unfolding handle_hello
  handle_hello-Inv r args c v = ground (
    arith,
    has_bits-set_other c.session.performed_actions Action.helo Action.auth_perf,
    has_bits-set_other c.session.performed_actions Action.helo Action.mail_from,
  )

  pub handle_start_tls-Inv :
      (env : Env) (c : Conn) → ConnInv L c → OutcomeInv L (handle_start_tls env c)
  unfolding handle_start_tls
  handle_start_tls-Inv env c v = ground (
    arith,
    has_bits-set_other c.session.flags Flag.ssl Flag.auth,
    has_bits-set_other c.session.flags Flag.ssl Flag.from_local,
    has_bits-clear_other c.session.performed_actions (2 ^ 64 - 1 - Action.helo) Action.auth_perf,
    has_bits-clear_other c.session.performed_actions (2 ^ 64 - 1 - Action.helo) Action.mail_from,
  )

  finish_auth-Inv :
      (r : Verified) (c : Conn)
      → ConnInv L c
      → get_action c.session Action.auth_perf ≡ false
      → ((account : AccountShortcut) → r ≡ verified account true → L account)
      → OutcomeInv L (finish_auth r c)
  unfolding finish_auth
  finish_auth-Inv (verified account true) c v h k = ground (
    arith,
    k account refl,
    has_bits-set c.session.performed_actions Action.auth_perf,
    has_bits-set_other c.session.performed_actions Action.auth_perf Action.mail_from,
    has_bits-set_other c.session.flags Flag.auth Flag.from_local,
  )
  finish_auth-Inv (verified account false) c v h k = ground arith
  finish_auth-Inv (failed e) c v h k = ground arith
  finish_auth-Inv (failed_after account e) c v h k = ground arith

  pub handle_auth-Inv :
      (env : Env) (args : List Bytes) (c : Conn)
      → ConnInv L c
      → ((mechanism credentials user pass : Bytes) (rest : List Bytes) (account : AccountShortcut)
          → args ≡ mechanism ∷ credentials ∷ rest
          → env.decode_credentials credentials ≡ ok (user, pass)
          → auth_verify env user pass ≡ verified account true
          → L account)
      → OutcomeInv L (handle_auth env args c)
  unfolding handle_auth
  handle_auth-Inv env [] c v k = ground (arith, v)
  handle_auth-Inv env (m ∷ []) c v k = ground (arith, v)
  handle_auth-Inv env (m ∷ hash ∷ rest) c v k =
      elim (Bool-cases (get_action c.session Action.auth_perf)) [
        | inl done ↦ rw (done, handle_auth) v
        | inr fresh ↦ elim (Bool-cases (get_action c.session Action.helo)) [
          | inr e ↦ rw (fresh, e, handle_auth) v
          | inl e ↦ elim (Attempt-cases (env.decode_credentials hash)) [
            | inl (what, d) ↦ rw (fresh, e, d, handle_auth) v
            | inr ((user, pass), d) ↦
                rw (fresh, e, d, handle_auth)
                  (finish_auth-Inv (auth_verify env user pass) c v fresh
                    (λ account checked. k m hash user pass rest account refl d checked))
          ]
        ]
      ]

  pub handle_su-Inv : (env : Env) (c : Conn) → ConnInv L c → OutcomeInv L (handle_su env c)
  unfolding handle_su
  handle_su-Inv env c v = ground (
    arith,
    has_bits-set_other c.session.flags Flag.su Flag.auth,
    has_bits-set_other c.session.flags Flag.su Flag.from_local,
  )
