-- ===== src/Smtp/Handlers/Auth.antt =====
-- lib/smtp/server/SMTPServer.src.cc, `AUTH`, `DATA` and `SU`; `authVerify` is that of
-- lib/smtp/server/SMTPAuthentication.src.cc.
use fsmtp_v.Base.{Bool, true, false, not, ◌&&◌, List, [], ◌∷◌, none, some, if◌then◌else◌}
use fsmtp_v.Base.Text.{Bytes, codes, beq}
use fsmtp_v.Models.Account.{AccountShortcut, found, empty_query, database_exception, runtime_error}
use fsmtp_v.Models.EmailAddress
use fsmtp_v.Models.EmailAddress.{EmailAddress, Attempt, ok, throws, get_domain, get_username}
use fsmtp_v.Smtp.Session.{set_flag, get_action, set_action}
use fsmtp_v.Smtp.Session.Flag
use fsmtp_v.Smtp.Session.Action
use fsmtp_v.Smtp.Reply.{ResponseType}
use fsmtp_v.Smtp.Conn.{
  Conn, Exn, order, syntax, runtime, database, Outcome, done, thrown, write, plain, about,
  with_session,
}
use fsmtp_v.Smtp.Data.{SpfResult, spf_allowed, data_handler}
use fsmtp_v.Smtp.Handlers.{Env}

-- What `authVerify` ends in: the account found and whether the password fits, or an exception. The
-- account is written to the session as soon as it is found, also if an exception follows.
pub data Verified : Type 0 where
  verified : AccountShortcut → Bool → Verified
  failed : Exn → Verified
  failed_after : AccountShortcut → Exn → Verified

-- From the account on.
unfoldable pub check_password : Env → Bytes → AccountShortcut → Verified
check_password env pass account = elim (env.password_of account) [
  | found hash ↦ verified account (env.password_verify pass hash)
  | empty_query ↦ failed_after account runtime
  | database_exception ↦ failed_after account database
  | runtime_error ↦ failed_after account runtime
]

unfoldable pub find_user : Env → Bytes → Bytes → Bytes → Verified
find_user env domain username pass = elim (env.local_domain domain) [
  | found _ ↦ elim (env.find_account domain username) [
    | found account ↦ check_password env pass account
    | empty_query ↦ failed runtime
    | database_exception ↦ failed database
    | runtime_error ↦ failed runtime
  ]
  | empty_query ↦ failed runtime
  | database_exception ↦ failed database
  | runtime_error ↦ failed runtime
]

unfoldable pub auth_verify : Env → Bytes → Bytes → Verified
auth_verify env user pass = elim (EmailAddress.parse user) [
  | throws _ ↦ failed runtime
  | ok address ↦ elim (get_domain address) [
    | throws _ ↦ failed runtime
    | ok domain ↦ elim (get_username address) [
      | throws _ ↦ failed runtime
      | ok username ↦ find_user env domain username pass
    ]
  ]
]

abbrev pub with_account : Conn → AccountShortcut → Conn
with_account c account = with_session c (record (c.session) { sending_account = account })

-- The end of `AUTH`.
unfoldable pub finish_auth : Verified → Conn → Outcome
finish_auth (verified account false) c =
    done true (write (with_account c account) (plain ResponseType.auth_fail))
finish_auth (verified account true) c =
    let known = write (with_account c account) (plain ResponseType.auth_success) in
    done false (with_session known (set_flag (set_action known.session Action.auth_perf) Flag.auth))
finish_auth (failed e) c = thrown e c
finish_auth (failed_after account e) c = thrown e (with_account c account)

unfoldable pub handle_auth : Env → List Bytes → Conn → Outcome
handle_auth env args c =
    if get_action c.session Action.auth_perf
    then thrown (order (codes "AUTH already done.")) c
    else if not (get_action c.session Action.helo)
    then thrown (order (codes "EHLO/HELLO first.")) c
    else elim args [
      | [] ↦ thrown (syntax (codes "Specify type, and hash.")) c
      | _ ∷ [] ↦ thrown (syntax (codes "Specify type, and hash.")) c
      | _ ∷ hash ∷ _ ↦ elim (env.decode_credentials hash) [
        | throws what ↦ thrown (syntax what) c
        | ok (user, pass) ↦ finish_auth (auth_verify env user pass) c
      ]
    ]

unfoldable pub handle_data : Env → Conn → Outcome
handle_data env c =
    if get_action c.session Action.data_start
    then thrown (order (codes "DATA already received.")) c
    else if not (get_action c.session Action.helo)
    then thrown (order (codes "EHLO/HELLO first.")) c
    else if not (get_action c.session Action.mail_from)
    then thrown (order (codes "MAIL FROM first.")) c
    else if not (get_action c.session Action.rcpt_to)
    then thrown (order (codes "RCPT TO first.")) c
    else let ready = write c (plain ResponseType.data_start) in
      data_handler env.data_env (with_session ready (set_action c.session Action.data_start))

abbrev is_allowed : SpfResult → Bool
is_allowed spf_allowed = true
is_allowed _ = false

unfoldable pub handle_su : Env → Conn → Outcome
handle_su env c = elim env.own_spf [
  | none ↦ thrown runtime c
  | some result ↦
      if not (beq env.prefix (codes "0.0.0.0"))
        && (not (beq env.prefix (codes "127.0.0.1")) && not (is_allowed result))
      then done true (write c (plain ResponseType.su_denied))
      else done false (
          with_session (write c (about ResponseType.su_acc env.client_string))
            (set_flag c.session Flag.su))
]
