-- ===== src/Tests/SmtpRun.antt =====
-- The SMTP server on concrete lines.
use fsmtp_v.Base.{true, false, List, [], ◌∷◌, map, some, ◌≡◌, refl, if◌then◌else◌}
use fsmtp_v.Base.Text.{Bytes, codes, beq, find_first_of}
use fsmtp_v.Models.Account.{AccountShortcut, found, empty_query}
use fsmtp_v.Models.EmailAddress.{ok, get_domain}
use fsmtp_v.Smtp.Session.{Session, incomming, new_session, has_bits}
use fsmtp_v.Smtp.Conn.{Conn}
use fsmtp_v.Smtp.Data.{
  complete, DataEnv, FullEmail, policy_reject, spf_allowed, spf_denied, dkim_pass, data_handler,
  modify_targets,
}
use fsmtp_v.Smtp.Handlers.{Env}
use fsmtp_v.Smtp.Server
use fsmtp_v.Smtp.Server.{greet}
use fsmtp_v.Base.{ℕ, length}
use fsmtp_v.Base.Text.{find_last_of, tolower, getlines}
use fsmtp_v.General.Cleanup.{reduce_whitespace, reduce_loop, remove_first_and_last_white}
use fsmtp_v.Models.EmailAddress
use fsmtp_v.Models.EmailAddress.{parse_brackets, between, clean_name, get_username}
use fsmtp_v.Smtp.Command
use fsmtp_v.Smtp.Session.{generate_snippet}
use fsmtp_v.Smtp.Data.{deliver, store_email, queue, find_snippet, read_flags}
use fsmtp_v.Smtp.Handlers.{handle_quit, handle_hello, ehlo_reply}
use fsmtp_v.Smtp.Handlers.Mail.{accept_from, check_own_account, check_from, handle_mail_from}
use fsmtp_v.Smtp.Handlers.Recipient.{relay_session, relay_to, check_to, handle_rcpt_to}
use fsmtp_v.Smtp.Handlers.Auth.{
  check_password, find_user, auth_verify, finish_auth, handle_auth, handle_data,
}
use fsmtp_v.Smtp.Server.{
  Next, continue, stop, broken, handle_type, handle_command, after, step, serve, greet,
}
use fsmtp_v.Smtp.Command.{ClientCommandType}
use fsmtp_v.Smtp.Conn.{thrown, order}
use fsmtp_v.Smtp.Server.Order.{handle_type-needs_helo}
use fsmtp_v.Smtp.Relay.Run.{Sent, ConnClosed, handler-NoOpenRelay}

abbrev bob : AccountShortcut
bob = record { bucket = 7; domain = codes "fannst.nl"; username = codes "bob"; uuid = 1 }

abbrev message : FullEmail
message = record {
  headers = [];
  sections = [];
  message_id = codes "id";
  subject = codes "hi";
  from = record { name = []; address = codes "bob@fannst.nl" } ∷ [];
}

abbrev data_env : DataEnv
data_env = record {
  read = complete (codes "Subject: hi");
  dmarc = λ query. some policy_reject;
  spf = λ domain. spf_denied;
  spf_text = [];
  dkim = λ raw. dkim_pass;
  dkim_text = [];
  dmarc_text = λ query passes. [];
  su_text = [];
  rebuild = λ raw results. raw;
  parse_mime = λ raw. ok message;
  queued_text = λ id size. id;
}

abbrev env : Env
env = record {
  client_string = codes "client";
  prefix = codes "10.0.0.1";
  upgrade = true;
  local_domain = λ domain. if beq domain (codes "fannst.nl") then found tt else empty_query;
  find_account = λ domain username. if beq username (codes "bob") then found bob else empty_query;
  password_of = λ account. found (codes "secret");
  password_verify = beq;
  decode_credentials = λ hash. ok (codes "bob@fannst.nl", codes "secret");
  own_spf = some spf_allowed;
  data_env = data_env;
}

abbrev with_env : List Bytes → List (Env × Bytes)
with_env = map λ line. (env, line)

-- A client that logs in, and has a message relayed.
abbrev relay_lines : List (Env × Bytes)
relay_lines = with_env (
    codes "EHLO client"
    ∷ codes "AUTH PLAIN Ym9i"
    ∷ codes "MAIL FROM:<bob@fannst.nl>"
    ∷ codes "RCPT TO:<alice@example.com>"
    ∷ codes "DATA"
    ∷ codes "QUIT"
    ∷ [])

handler-NoOpenRelay_example : ConnClosed (Sent relay_lines) (Server.handler false relay_lines)
handler-NoOpenRelay_example = handler-NoOpenRelay false relay_lines

abbrev sessions_sent : Next → ℕ
sessions_sent (continue c) = length c.transmitted
sessions_sent (stop c) = length c.transmitted
sessions_sent broken = 0

-- That client's message is handed to the transmission worker, once.
relay_lines_sent : sessions_sent (Server.handler false relay_lines) ≡ 1
unfolding Server.handler serve greet step after handle_command handle_type handle_hello ehlo_reply
    handle_auth auth_verify find_user check_password finish_auth handle_mail_from check_from
    check_own_account accept_from handle_rcpt_to check_to relay_to relay_session handle_data
    data_handler deliver store_email queue find_snippet modify_targets read_flags handle_quit
    new_session has_bits generate_snippet Command.parse Command.command_type_of Command.arguments_of
    reduce_whitespace reduce_loop remove_first_and_last_white find_first_of find_last_of tolower
    getlines beq EmailAddress.parse parse_brackets between clean_name get_domain get_username
relay_lines_sent = refl

abbrev anonymous : Conn
anonymous = record {
  session = record new_session {
    transport_from = record { name = []; address = codes "eve@fannst.nl" };
  };
  using_ssl = false;
  written = [];
  stored = [];
  transmitted = [];
}

abbrev suspicious : Session
suspicious = record new_session {
  possible_spam = true;
  storage_tasks = record { account = bob; target = incomming } ∷ [];
}

handle_type-needs_helo_example :
    (what : Bytes) × (handle_type ClientCommandType.data_ env [] anonymous
      ≡ thrown (order what) anonymous)
unfolding new_session has_bits
handle_type-needs_helo_example =
    handle_type-needs_helo ClientCommandType.data_ env [] anonymous refl refl
