-- ===== src/Smtp/Server.antt =====
-- lib/smtp/server/SMTPServer.src.cc: the switch of `handleCommand`, and the loop of `startHandler`
-- over the lines of a client.
pub mod Limit
pub mod Order
use fsmtp_v.Base.{ℕ, zero, suc, Bool, true, false, List, [], ◌∷◌, if◌then◌else◌}
use fsmtp_v.Base.Text.{Bytes, codes}
use fsmtp_v.Smtp.Command.{ClientCommandType, ClientCommand}
use fsmtp_v.Smtp.Command
use fsmtp_v.Smtp.Session.{set_flag, new_session}
use fsmtp_v.Smtp.Session.Flag
use fsmtp_v.Smtp.Reply.{ResponseType}
use fsmtp_v.Smtp.Conn.{
  Conn, order, syntax, invalid, fatal, runtime, database, other, Outcome, done, thrown, undefined,
  write, plain, about, saying,
}
use fsmtp_v.Smtp.Handlers.{Env, handle_quit, handle_hello, ehlo_reply, handle_start_tls}
use fsmtp_v.Smtp.Handlers.Mail.{handle_mail_from}
use fsmtp_v.Smtp.Handlers.Recipient.{handle_rcpt_to}
use fsmtp_v.Smtp.Handlers.Auth.{handle_auth, handle_data, handle_su}

unfoldable pub handle_type : ClientCommandType → Env → List Bytes → Conn → Outcome
handle_type ClientCommandType.help env args c = done false (write c (plain ResponseType.help_resp))
handle_type ClientCommandType.quit env args c = handle_quit c
handle_type ClientCommandType.helo env args c =
    handle_hello (about ResponseType.helo env.client_string) args c
handle_type ClientCommandType.ehlo env args c = handle_hello (ehlo_reply env c) args c
handle_type ClientCommandType.start_tls env args c = handle_start_tls env c
handle_type ClientCommandType.mail_from env args c = handle_mail_from env args c
handle_type ClientCommandType.rcpt_to env args c = handle_rcpt_to env args c
handle_type ClientCommandType.auth env args c = handle_auth env args c
handle_type ClientCommandType.data_ env args c = handle_data env c
handle_type ClientCommandType.su env args c = handle_su env c
handle_type ClientCommandType.fcapa env args c =
    done false (write c (plain ResponseType.fcapa_resp))
handle_type ClientCommandType.unknown env args c = thrown (invalid (codes "Invalid command")) c

unfoldable pub handle_command : Env → ClientCommand → Conn → Outcome
handle_command env command c = handle_type command.command_type env command.arguments c

-- What the loop does with the end of a command: go on, stop, or undefined behaviour.
pub data Next : Type 0 where
  continue stop : Conn → Next
  broken : Next

-- The `catch` clauses of the loop: three exceptions are answered, that of the database is logged,
-- the others end the connection.
unfoldable pub after : Outcome → Next
after (done true c) = stop c
after (done false c) = continue c
after (thrown (order what) c) = continue (write c (saying ResponseType.order_err what))
after (thrown (syntax what) c) = continue (write c (saying ResponseType.syntax_err what))
after (thrown (invalid what) c) = continue (write c (saying ResponseType.invalid_command what))
after (thrown database c) = continue c
after (thrown fatal c) = stop c
after (thrown runtime c) = stop c
after (thrown other c) = stop c
after undefined = broken

unfoldable pub step : Env → Bytes → Conn → Next
step env raw c = after (handle_command env (Command.parse raw) c)

-- The connection's start: the SSL flag, and the greeting.
unfoldable pub greet : Bool → Conn
greet using_ssl =
    write
      (record {
        session = if using_ssl then set_flag new_session Flag.ssl else new_session;
        using_ssl = using_ssl;
        written = [];
        stored = [];
        transmitted = [];
      })
      (plain ResponseType.greeting)

-- The loop over the lines that the client sends, each with what the handler gets from outside: `n`
-- rounds are left, and the loop also ends with the lines.
unfoldable pub serve : ℕ → List (Env × Bytes) → Conn → Next
serve zero lines c = stop c
serve (suc n) [] c = stop c
serve (suc n) ((env, raw) ∷ lines) c = elim (step env raw c) [
  | continue c' ↦ serve n lines c'
  | stop c' ↦ stop c'
  | broken ↦ broken
]

-- `if (++itt > 60) break;`
abbrev pub max_commands : ℕ
max_commands = 60

unfoldable pub handler : Bool → List (Env × Bytes) → Next
handler using_ssl lines = serve max_commands lines (greet using_ssl)
