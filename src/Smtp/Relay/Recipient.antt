-- ===== src/Smtp/Relay/Recipient.antt =====
-- `RCPT TO` keeps the invariant.
use fsmtp_v.Base.{true, List, [], ◌∷◌, ◌≡◌, arith}
use fsmtp_v.Base.Text.{Bytes}
use fsmtp_v.Models.Account.{AccountShortcut}
use fsmtp_v.Models.EmailAddress.{EmailAddress}
use fsmtp_v.Smtp.Session.{get_flag}
use fsmtp_v.Smtp.Session.Flag
use fsmtp_v.Smtp.Session.Action
use fsmtp_v.Smtp.Session.Laws.{has_bits-set_other}
use fsmtp_v.Smtp.Conn.{Conn}
use fsmtp_v.Smtp.Handlers.{Env}
use fsmtp_v.Smtp.Handlers.Recipient.{
  deliver_local, relay_session, relay_to, find_recipient, check_to, handle_rcpt_to,
}
use fsmtp_v.Smtp.Relay.{Known, ConnInv, OutcomeInv}

module _ (L : Known) where
  deliver_local-Inv :
      (to : EmailAddress) (account : AccountShortcut) (c : Conn)
      → ConnInv L c
      → OutcomeInv L (deliver_local to account c)
  unfolding deliver_local
  deliver_local-Inv to account c v = ground (
    arith,
    has_bits-set_other c.session.performed_actions Action.rcpt_to Action.auth_perf,
    has_bits-set_other c.session.performed_actions Action.rcpt_to Action.mail_from,
  )

  -- Only for a local sender is a task to relay added.
  relay_to-Inv :
      (to : EmailAddress) (c : Conn)
      → ConnInv L c
      → get_flag c.session Flag.from_local ≡ true
      → OutcomeInv L (relay_to to c)
  unfolding relay_to relay_session
  relay_to-Inv to c v h = ground (
    arith,
    has_bits-set_other c.session.performed_actions Action.rcpt_to Action.auth_perf,
    has_bits-set_other c.session.performed_actions Action.rcpt_to Action.mail_from,
    has_bits-set_other c.session.flags Flag.relay Flag.auth,
    has_bits-set_other c.session.flags Flag.relay Flag.from_local,
  )

  find_recipient-Inv :
      (env : Env) (to : EmailAddress) (domain : Bytes) (c : Conn)
      → ConnInv L c
      → OutcomeInv L (find_recipient env to domain c)
  unfolding find_recipient
  find_recipient-Inv env to domain c v =
      grind (arith, λ (account : AccountShortcut). deliver_local-Inv to account c v)

  check_to-Inv :
      (env : Env) (to : EmailAddress) (c : Conn) → ConnInv L c → OutcomeInv L (check_to env to c)
  unfolding check_to
  check_to-Inv env to c v = grind (arith, find_recipient-Inv, relay_to-Inv)

  pub handle_rcpt_to-Inv :
      (env : Env) (args : List Bytes) (c : Conn)
      → ConnInv L c
      → OutcomeInv L (handle_rcpt_to env args c)
  unfolding handle_rcpt_to
  handle_rcpt_to-Inv env [] c v = ground arith
  handle_rcpt_to-Inv env (arg ∷ args) c v = grind (arith, check_to-Inv)
