-- ===== src/Smtp/Relay.antt =====
-- No open relay: whoever has a message relayed has authenticated, and sends from its own address.
-- Here is the invariant; the child modules prove that each handler keeps it.
pub mod Auth
pub mod Login
pub mod Mail
pub mod Recipient
pub mod Delivery
pub mod Run
use fsmtp_v.Base.{
  ℕ, zero, suc, Bool, true, false, not, ◌&&◌, ◌||◌, List, [], ◌∷◌, ◌++◌, Option, none, some, ◌≡◌,
  ◌⊎◌, inl, inr, refl, arith, ◌-◌, ◌^◌, if◌then◌else◌, All, All-append, Option-cases, Bool-cases,
  bit_or,
}
use fsmtp_v.Base.Text.{Bytes, beq, beq_iff}
use fsmtp_v.Models.Account.{
  AccountShortcut, Query, found, empty_query, database_exception, runtime_error,
}
use fsmtp_v.Models.EmailAddress
use fsmtp_v.Models.EmailAddress.{
  EmailAddress, Attempt, ok, throws, get_domain, get_username, Attempt-cases,
}
use fsmtp_v.Smtp.Command.{ClientCommandType, ClientCommand}
use fsmtp_v.Smtp.Command
use fsmtp_v.Smtp.Session.{Session, get_flag, get_action, set_flag, has_bits, RelayTask, StorageTask}
use fsmtp_v.Smtp.Session.Flag
use fsmtp_v.Smtp.Session.Action
use fsmtp_v.Smtp.Session.Laws.{
  has_bits-set, has_bits-set_keeps, has_bits-set_other, has_bits-clear, has_bits-clear_other,
}
use fsmtp_v.Smtp.Reply.{Reply}
use fsmtp_v.Smtp.Conn.{Conn, Outcome, done, thrown, undefined, write, with_session}
use fsmtp_v.Smtp.Data.{data_handler}
use fsmtp_v.Smtp.Handlers.{Env, handle_quit, handle_hello, ehlo_reply, handle_start_tls}
use fsmtp_v.Smtp.Handlers.Mail.{accept_from, check_own_account, check_from, handle_mail_from}
use fsmtp_v.Smtp.Handlers.Recipient.{
  deliver_local, relay_session, relay_to, find_recipient, check_to, handle_rcpt_to,
}
use fsmtp_v.Smtp.Handlers.Auth.{
  handle_auth, handle_data, handle_su, finish_auth, Verified, verified, failed, failed_after,
}

-- The session's client has authenticated, and its sender address is that of its account.
pub record IsOwn (s : Session) : Type 0 where
  pub authenticated : get_flag s Flag.auth ≡ true
  pub auth_done : get_action s Action.auth_perf ≡ true
  pub from_done : get_action s Action.mail_from ≡ true
  pub own_domain : get_domain s.transport_from ≡ ok s.sending_account.domain
  pub own_username : get_username s.transport_from ≡ ok s.sending_account.username

-- What is known of the account of an authenticated session.
abbrev pub Known : Type 1
Known = AccountShortcut → Type 0

pub record Inv (L : Known) (s : Session) : Type 0 where
  pub local : (get_flag s Flag.from_local ≡ false) ⊎ IsOwn s
  pub authed : (get_flag s Flag.auth ≡ false) ⊎ (get_action s Action.auth_perf ≡ true)
  pub known : (get_flag s Flag.auth ≡ false) ⊎ L s.sending_account
  pub relayed : (s.relay_tasks ≡ []) ⊎ (get_flag s Flag.from_local ≡ true)

-- Of the connection: the session, and what the workers were handed.
pub record ConnInv (L : Known) (c : Conn) : Type 0 where
  pub now : Inv L c.session
  pub stored : All (Inv L) c.stored
  pub transmitted : All (Inv L) c.transmitted

abbrev pub OutcomeInv : Known → Outcome → Type 0
OutcomeInv L (done b c) = ConnInv L c
OutcomeInv L (thrown e c) = ConnInv L c
OutcomeInv L undefined = Unit

module _ (L : Known) where
  -- Another session on the same connection.
  pub keep : (c : Conn) (s : Session) → ConnInv L c → Inv L s → ConnInv L (with_session c s)
  keep c s v i = record { now = i; stored = v.stored; transmitted = v.transmitted }

  pub wrote : (c : Conn) (r : Reply) → ConnInv L c → ConnInv L (write c r)
  wrote c r v = record { now = v.now; stored = v.stored; transmitted = v.transmitted }
