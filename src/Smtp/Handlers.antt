-- ===== src/Smtp/Handlers.antt =====
-- lib/smtp/server/SMTPServer.src.cc: the cases of `handleCommand`. Here are what a handler gets
-- from outside, and the cases that open, secure and close a connection.
pub mod Mail
pub mod Recipient
pub mod Auth
use fsmtp_v.Base.{
  ℕ, zero, suc, Bool, true, false, not, ◌&&◌, ◌||◌, List, [], ◌∷◌, ◌++◌, Option, none, some,
  if◌then◌else◌, length,
}
use fsmtp_v.Base.Text.{Bytes, codes, beq}
use fsmtp_v.Models.Account.{
  AccountShortcut, Query, found, empty_query, database_exception, runtime_error,
}
use fsmtp_v.Models.EmailAddress
use fsmtp_v.Models.EmailAddress.{EmailAddress, Attempt, ok, throws, get_domain, get_username}
use fsmtp_v.Smtp.Command.{ClientCommandType, ClientCommand}
use fsmtp_v.Smtp.Command
use fsmtp_v.Smtp.Session.{
  Session, StorageTask, RelayTask, incomming, sent, get_flag, set_flag, get_action, set_action,
  clear_action, add_storage_task, add_relay_task, set_transform_from, new_session, no_account,
}
use fsmtp_v.Smtp.Session.Flag
use fsmtp_v.Smtp.Session.Action
use fsmtp_v.Smtp.Reply.{ResponseType, Reply, no_services, plain_services, secure_services}
use fsmtp_v.Smtp.Conn.{
  Conn, Exn, order, syntax, invalid, fatal, runtime, database, other, Outcome, done, thrown,
  undefined, write, plain, about, saying, with_session,
}
use fsmtp_v.Smtp.Data.{DataEnv, SpfResult, spf_allowed, data_handler}

-- What a command gets from outside the handler: the socket's names, the databases, OpenSSL, the
-- SPF check of `SU`, and what `DATA` needs.
pub record Env : Type 0 where
  pub client_string : Bytes
  pub prefix : Bytes
  -- `upgradeAsServer`; false if it throws
  pub upgrade : Bool
  pub local_domain : Bytes → Query (Unit {0})
  pub find_account : Bytes → Bytes → Query AccountShortcut
  pub password_of : AccountShortcut → Query Bytes
  pub password_verify : Bytes → Bytes → Bool
  pub decode_credentials : Bytes → Attempt (Bytes × Bytes)
  -- the SPF result for this server's own domain; `none` if `validate` throws
  pub own_spf : Option SpfResult
  pub data_env : DataEnv

unfoldable pub handle_quit : Conn → Outcome
handle_quit c = done true (write c (plain ResponseType.quit_goodbye))

-- HELO and EHLO differ in their response only.
unfoldable pub handle_hello : Reply → List Bytes → Conn → Outcome
handle_hello reply args c =
    if get_action c.session Action.helo
    then thrown (order (codes "EHLO/HELO already sent.")) c
    else elim args [
      | [] ↦ thrown (syntax (codes "Empty HELO command not allowed")) c
      | _ ∷ _ ↦
          let answered = write c reply in
          done false (with_session answered (set_action c.session Action.helo))
    ]

unfoldable pub ehlo_reply : Env → Conn → Reply
ehlo_reply env c = record {
  response = ResponseType.ehlo;
  message = [];
  subject = env.client_string;
  services = if c.using_ssl then secure_services else plain_services;
}

unfoldable pub handle_start_tls : Env → Conn → Outcome
handle_start_tls env c =
    if not (get_action c.session Action.helo)
    then thrown (order (codes "EHLO/HELO first.")) c
    else if get_flag c.session Flag.ssl
    then thrown (order (codes "Connection already secured")) c
    else let ready = record (write c (plain ResponseType.start_tls)) { using_ssl = true } in
      if env.upgrade
      then done false (with_session ready (clear_action (set_flag c.session Flag.ssl) Action.helo))
      else thrown runtime ready
