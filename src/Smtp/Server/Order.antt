-- ===== src/Smtp/Server/Order.antt =====
-- What an SMTP client may do before it has introduced itself.
use fsmtp_v.Base.{Bool, true, false, List, ◌≡◌, refl, Bool-cases, inl, inr}
use fsmtp_v.Base.Text.{Bytes, codes}
use fsmtp_v.Smtp.Command.{ClientCommandType}
use fsmtp_v.Smtp.Session.{get_action}
use fsmtp_v.Smtp.Session.Action
use fsmtp_v.Smtp.Conn.{Conn, thrown, order}
use fsmtp_v.Smtp.Handlers.{Env, handle_start_tls}
use fsmtp_v.Smtp.Handlers.Mail.{handle_mail_from}
use fsmtp_v.Smtp.Handlers.Recipient.{handle_rcpt_to}
use fsmtp_v.Smtp.Handlers.Auth.{handle_auth, handle_data}
use fsmtp_v.Smtp.Server.{handle_type}

-- The commands of a mail transaction, and those that secure or authenticate it.
abbrev pub needs_helo : ClientCommandType → Bool
needs_helo ClientCommandType.start_tls = true
needs_helo ClientCommandType.mail_from = true
needs_helo ClientCommandType.rcpt_to = true
needs_helo ClientCommandType.auth = true
needs_helo ClientCommandType.data_ = true
needs_helo _ = false

-- Before HELO or EHLO each command of a mail transaction, STARTTLS and AUTH are order errors, whatever
-- their arguments are, and change nothing.
pub handle_type-needs_helo :
    (t : ClientCommandType) (env : Env) (args : List Bytes) (c : Conn)
    → get_action c.session Action.helo ≡ false
    → needs_helo t ≡ true
    → (what : Bytes) × (handle_type t env args c ≡ thrown (order what) c)
unfolding handle_type handle_start_tls handle_mail_from handle_rcpt_to handle_auth handle_data
handle_type-needs_helo ClientCommandType.start_tls env args c h t =
    (codes "EHLO/HELO first.", rw (h, handle_start_tls) refl)
handle_type-needs_helo ClientCommandType.mail_from env args c h t =
    elim (Bool-cases (get_action c.session Action.mail_from)) [
      | inl e ↦ (codes "MAIL FROM already sent", rw (e, handle_mail_from) refl)
      | inr e ↦ (codes "EHLO/HELO first", rw (e, h, handle_mail_from) refl)
    ]
handle_type-needs_helo ClientCommandType.rcpt_to env args c h t =
    (codes "EHLO/HELLO first.", rw (h, handle_rcpt_to) refl)
handle_type-needs_helo ClientCommandType.auth env args c h t =
    elim (Bool-cases (get_action c.session Action.auth_perf)) [
      | inl e ↦ (codes "AUTH already done.", rw (e, handle_auth) refl)
      | inr e ↦ (codes "EHLO/HELLO first.", rw (e, h, handle_auth) refl)
    ]
handle_type-needs_helo ClientCommandType.data_ env args c h t =
    elim (Bool-cases (get_action c.session Action.data_start)) [
      | inl e ↦ (codes "DATA already received.", rw (e, handle_data) refl)
      | inr e ↦ (codes "EHLO/HELLO first.", rw (e, h, handle_data) refl)
    ]
handle_type-needs_helo _ env args c h t = absurd cc
