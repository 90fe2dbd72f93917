-- ===== src/Smtp/Relay/Mail.antt =====
-- `MAIL FROM` keeps the invariant.
use fsmtp_v.Base.{true, false, List, [], ◌∷◌, ◌≡◌, ◌⊎◌, inl, inr, arith, All, Bool-cases}
use fsmtp_v.Base.Text.{Bytes, beq_iff}
use fsmtp_v.Models.EmailAddress
use fsmtp_v.Models.EmailAddress.{
  EmailAddress, Attempt, ok, throws, get_domain, get_username, Attempt-cases,
}
use fsmtp_v.Smtp.Session.{Session, get_flag, get_action, set_flag}
use fsmtp_v.Smtp.Session.Flag
use fsmtp_v.Smtp.Session.Action
use fsmtp_v.Smtp.Session.Laws.{has_bits-set, has_bits-set_keeps, has_bits-set_other}
use fsmtp_v.Smtp.Conn.{Conn, with_session}
use fsmtp_v.Smtp.Handlers.{Env}
use fsmtp_v.Smtp.Handlers.Mail.{accept_from, check_own_account, check_from, handle_mail_from}
use fsmtp_v.Smtp.Relay.{Known, Inv, ConnInv, OutcomeInv}

module _ (L : Known) where
  accept_from-Inv :
      (from : EmailAddress) (c : Conn)
      → (get_flag c.session Flag.from_local ≡ false)
        ⊎ ((get_flag c.session Flag.auth ≡ true)
            × (get_domain from ≡ ok c.session.sending_account.domain)
            × (get_username from ≡ ok c.session.sending_account.username))
      → (get_flag c.session Flag.auth ≡ false) ⊎ (get_action c.session Action.auth_perf ≡ true)
      → (get_flag c.session Flag.auth ≡ false) ⊎ L c.session.sending_account
      → (c.session.relay_tasks ≡ []) ⊎ (get_flag c.session Flag.from_local ≡ true)
      → All (Inv L) c.stored
      → All (Inv L) c.transmitted
      → OutcomeInv L (accept_from from c)
  unfolding accept_from
  accept_from-Inv from c own authed known relayed st tr = ground (
    arith,
    has_bits-set c.session.performed_actions Action.mail_from,
    has_bits-set_other c.session.performed_actions Action.mail_from Action.auth_perf,
  )

  -- Before `MAIL FROM` no sender is local.
  not_local :
      (s : Session)
      → Inv L s
      → get_action s Action.mail_from ≡ false
      → get_flag s Flag.from_local ≡ false
  not_local s v h = ground arith

  -- The account's own address, taken over with the flag set.
  accept_own-Inv :
      (from : EmailAddress) (c : Conn)
      → ConnInv L c
      → get_flag c.session Flag.auth ≡ true
      → get_domain from ≡ ok c.session.sending_account.domain
      → get_username from ≡ ok c.session.sending_account.username
      → OutcomeInv L (accept_from from (with_session c (set_flag c.session Flag.from_local)))
  accept_own-Inv from c v a d u =
      let f = c.session.flags in
      accept_from-Inv from (with_session c (set_flag c.session Flag.from_local))
        (inr (has_bits-set_keeps f Flag.from_local Flag.auth a, d, u)) (ground (arith, a))
        (ground (arith, v.now.known)) (inr (has_bits-set f Flag.from_local)) v.stored v.transmitted

  check_own_account-Inv :
      (from : EmailAddress) (domain : Bytes) (c : Conn)
      → ConnInv L c
      → get_action c.session Action.mail_from ≡ false
      → get_domain from ≡ ok domain
      → OutcomeInv L (check_own_account from domain c)
  unfolding check_own_account
  check_own_account-Inv from domain c v h e = elim (Attempt-cases (get_username from)) [
    | inl (what, u) ↦ ground (arith, u)
    | inr (username, u) ↦ ground (
      arith,
      u,
      beq_iff domain c.session.sending_account.domain,
      beq_iff username c.session.sending_account.username,
      accept_own-Inv from c v,
    )
  ]

  check_from-Inv :
      (env : Env) (from : EmailAddress) (c : Conn)
      → ConnInv L c
      → get_action c.session Action.mail_from ≡ false
      → OutcomeInv L (check_from env from c)
  unfolding check_from
  check_from-Inv env from c v h = elim (Attempt-cases (get_domain from)) [
    | inl (what, e) ↦ rw (e, check_from) v
    | inr (domain, e) ↦ ground (
      arith,
      e,
      not_local c.session v.now h,
      check_own_account-Inv from domain c v h e,
      accept_from-Inv from c (inl (not_local c.session v.now h)) v.now.authed v.now.known
          v.now.relayed v.stored v.transmitted,
    )
  ]

  pub handle_mail_from-Inv :
      (env : Env) (args : List Bytes) (c : Conn)
      → ConnInv L c
      → OutcomeInv L (handle_mail_from env args c)
  unfolding handle_mail_from
  handle_mail_from-Inv env [] c v = ground arith
  handle_mail_from-Inv env (arg ∷ args) c v =
      elim (Bool-cases (get_action c.session Action.mail_from)) [
        | inl sent ↦ rw (sent, handle_mail_from) v
        | inr fresh ↦ elim (Attempt-cases (EmailAddress.parse arg)) [
          | inl (what, e) ↦ ground (arith, e, fresh)
          | inr (from, e) ↦ ground (arith, e, fresh, check_from-Inv env from c v fresh)
        ]
      ]
