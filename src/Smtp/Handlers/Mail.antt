-- ===== src/Smtp/Handlers/Mail.antt =====
-- lib/smtp/server/SMTPServer.src.cc, `MAIL FROM`.
use fsmtp_v.Base.{true, false, not, ◌||◌, List, [], ◌∷◌, ◌++◌, if◌then◌else◌}
use fsmtp_v.Base.Text.{Bytes, codes, beq}
use fsmtp_v.Models.Account.{found, empty_query, database_exception, runtime_error}
use fsmtp_v.Models.EmailAddress
use fsmtp_v.Models.EmailAddress.{EmailAddress, Attempt, ok, throws, get_domain, get_username}
use fsmtp_v.Smtp.Session.{get_flag, set_flag, get_action, set_action, set_transform_from}
use fsmtp_v.Smtp.Session.Flag
use fsmtp_v.Smtp.Session.Action
use fsmtp_v.Smtp.Reply.{ResponseType}
use fsmtp_v.Smtp.Conn.{
  Conn, order, syntax, runtime, database, Outcome, done, thrown, write, plain, about, with_session,
}
use fsmtp_v.Smtp.Handlers.{Env}

-- The sender is taken over, and the client told to proceed.
unfoldable pub accept_from : EmailAddress → Conn → Outcome
accept_from from c =
    let s = set_transform_from c.session from in
    let answered = write c (about ResponseType.mail_from from.address) in
    done false (with_session answered (set_action s Action.mail_from))

-- `from` is of a local domain: only its own authenticated account may send.
unfoldable pub check_own_account : EmailAddress → Bytes → Conn → Outcome
check_own_account from domain c =
    let account = c.session.sending_account in
    if not (get_flag c.session Flag.auth)
    then thrown (order (codes "AUTH first")) c
    else elim (get_username from) [
      | throws _ ↦ thrown runtime c
      | ok username ↦
          if not (beq domain account.domain) || not (beq username account.username)
          then done true (write c (plain ResponseType.auth_not_allowed))
          else accept_from from (with_session c (set_flag c.session Flag.from_local))
    ]

unfoldable pub check_from : Env → EmailAddress → Conn → Outcome
check_from env from c = elim (get_domain from) [
  | throws _ ↦ thrown runtime c
  | ok domain ↦
      if get_flag c.session Flag.su then accept_from from c else elim (env.local_domain domain) [
        | empty_query ↦ accept_from from c
        | database_exception ↦ thrown database c
        | runtime_error ↦ thrown runtime c
        | found _ ↦ check_own_account from domain c
      ]
]

unfoldable pub handle_mail_from : Env → List Bytes → Conn → Outcome
handle_mail_from env args c =
    if get_action c.session Action.mail_from
    then thrown (order (codes "MAIL FROM already sent")) c
    else if not (get_action c.session Action.helo)
    then thrown (order (codes "EHLO/HELO first")) c
    else elim args [
      | [] ↦ thrown (syntax (codes "MAIL FROM requires arguments.")) c
      | arg ∷ _ ↦ elim (EmailAddress.parse arg) [
        | throws what ↦ thrown (syntax (codes "Invalid email address: " ++ what)) c
        | ok from ↦ check_from env from c
      ]
    ]
