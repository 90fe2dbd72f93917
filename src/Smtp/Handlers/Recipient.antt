-- ===== src/Smtp/Handlers/Recipient.antt =====
-- lib/smtp/server/SMTPServer.src.cc, `RCPT TO`.
use fsmtp_v.Base.{false, not, List, [], ◌∷◌, ◌++◌, if◌then◌else◌}
use fsmtp_v.Base.Text.{Bytes, codes}
use fsmtp_v.Models.Account.{AccountShortcut, found, empty_query, database_exception, runtime_error}
use fsmtp_v.Models.EmailAddress
use fsmtp_v.Models.EmailAddress.{EmailAddress, Attempt, ok, throws, get_domain, get_username}
use fsmtp_v.Smtp.Session.{
  Session, incomming, sent, get_flag, set_flag, get_action, set_action, add_storage_task,
  add_relay_task,
}
use fsmtp_v.Smtp.Session.Flag
use fsmtp_v.Smtp.Session.Action
use fsmtp_v.Smtp.Reply.{ResponseType}
use fsmtp_v.Smtp.Conn.{
  Conn, order, syntax, runtime, database, Outcome, done, thrown, write, about, with_session,
}
use fsmtp_v.Smtp.Handlers.{Env}

-- The tasks of an accepted recipient.
unfoldable pub deliver_local : EmailAddress → AccountShortcut → Conn → Outcome
deliver_local to account c =
    let s = add_storage_task c.session (record { account = account; target = incomming }) in
    let answered = write c (about ResponseType.rcpt_to to.address) in
    done false (with_session answered (set_action s Action.rcpt_to))

-- The first relayed recipient also stores the message as sent.
unfoldable pub relay_session : Session → EmailAddress → Session
relay_session s to =
    let tasked = add_relay_task s (record { target = to }) in
    if get_flag s Flag.relay
    then tasked
    else add_storage_task (set_flag tasked Flag.relay)
        (record { account = s.sending_account; target = sent })

unfoldable pub relay_to : EmailAddress → Conn → Outcome
relay_to to c =
    let answered = write c (about ResponseType.rcpt_to to.address) in
    done false (with_session answered (set_action (relay_session c.session to) Action.rcpt_to))

unfoldable pub find_recipient : Env → EmailAddress → Bytes → Conn → Outcome
find_recipient env to domain c = elim (get_username to) [
  | throws _ ↦ thrown runtime c
  | ok username ↦ elim (env.find_account domain username) [
    | found account ↦ deliver_local to account c
    | empty_query ↦ done false (write c (about ResponseType.rec_not_local to.address))
    | database_exception ↦ thrown database c
    | runtime_error ↦ thrown runtime c
  ]
]

-- A domain that is not local is relayed to, if the sender is local.
unfoldable pub check_to : Env → EmailAddress → Conn → Outcome
check_to env to c = elim (get_domain to) [
  | throws _ ↦ thrown runtime c
  | ok domain ↦ elim (env.local_domain domain) [
    | found _ ↦ find_recipient env to domain c
    | empty_query ↦
        if get_flag c.session Flag.from_local then relay_to to c else find_recipient env to domain c
    | database_exception ↦ thrown database c
    | runtime_error ↦ thrown runtime c
  ]
]

unfoldable pub handle_rcpt_to : Env → List Bytes → Conn → Outcome
handle_rcpt_to env args c =
    if not (get_action c.session Action.helo)
    then thrown (order (codes "EHLO/HELLO first.")) c
    else if not (get_action c.session Action.mail_from)
    then thrown (order (codes "MAIL FROM first.")) c
    else elim args [
      | [] ↦ thrown (syntax (codes "RCPT TO requires arguments.")) c
      | arg ∷ _ ↦ elim (EmailAddress.parse arg) [
        | throws what ↦ thrown (syntax (codes "Invalid email address: " ++ what)) c
        | ok to ↦ check_to env to c
      ]
    ]
