-- ===== src/Tests/Pop3Run.antt =====
-- The POP3 server on concrete lines.
use fsmtp_v.Base.{true, false, List, [], ◌∷◌, map, ◌≡◌, ◌≢◌, refl, if◌then◌else◌, arith}
use fsmtp_v.Base.Text.{Bytes, codes, beq}
use fsmtp_v.Base.Numbers.{stol}
use fsmtp_v.Models.Account.{AccountShortcut, found, empty_query}
use fsmtp_v.Pop3.Conn.{Reference, Conn, new_session, undefined, thrown, syntax, flag_auth}
use fsmtp_v.Smtp.Session.{has_bits}
use fsmtp_v.Pop3.Handlers.{Env}
use fsmtp_v.Pop3.Handlers.Messages.{handle_retr, handle_dele, max_index}
use fsmtp_v.Pop3.Handlers.Messages.Bounds.{DeleResult, handle_dele-DeleResult, retr-one_past}
use fsmtp_v.Base.Text.{find_first_of, find_last_of, tolower, getlines}
use fsmtp_v.General.Cleanup.{reduce_whitespace, reduce_loop, remove_first_and_last_white}
use fsmtp_v.Models.EmailAddress
use fsmtp_v.Models.EmailAddress.{parse_brackets, get_domain, get_username}
use fsmtp_v.Pop3.Command
use fsmtp_v.Pop3.Handlers.{or_stop, or_syntax, needs_auth, handle_quit}
use fsmtp_v.Pop3.Handlers.Login.{handle_user, find_user, identify, handle_pass, check_pass, log_in}
use fsmtp_v.Pop3.Handlers.Messages.{dele_index, add_grave}
use fsmtp_v.Pop3.Server.{go_on, step, handle_command, handle_type, after}
use fsmtp_v.Pop3.Server
use fsmtp_v.Pop3.Server.{broken, undefined_read, serve, greet}
use fsmtp_v.Pop3.Command.{CommandType}
use fsmtp_v.Pop3.Conn.{order}
use fsmtp_v.Pop3.Server.Order.{handle_type-order}
use fsmtp_v.Pop3.Server.Safety.Run.{Safe, Sent, handler-Safe, handler-defined}

abbrev bob : AccountShortcut
bob = record { bucket = 7; domain = codes "fannst.nl"; username = codes "bob"; uuid = 1 }

abbrev inbox : List Reference
inbox =
    record { uuid = 11; size = 100; bucket = 1 } ∷ record { uuid = 12; size = 50; bucket = 1 } ∷ []

abbrev env : Env
env = record {
  domain = codes "fannst.nl";
  upgrade = true;
  local_domain = λ domain. found tt;
  find_account = λ domain username. if beq username (codes "bob") then found bob else empty_query;
  password_of = λ account. found (codes "secret");
  password_verify = beq;
  references_of = λ account. found inbox;
  raw_email = λ account reference. found (codes "text");
  timestamp = λ uuid. uuid;
}

-- A client that logs in and marks the second message.
abbrev dele_lines : List (Env × Bytes)
dele_lines =
    map (λ line. (env, line))
      (codes "USER bob" ∷ codes "PASS secret" ∷ codes "DELE 2" ∷ codes "QUIT" ∷ [])

handler-Safe_example :
    Safe (Sent dele_lines) (Server.handler (λ d. false) false (codes "client") dele_lines)
handler-Safe_example = handler-Safe (λ d. false) false (codes "client") dele_lines

-- The session of that client runs to its end.
dele_lines_run : serve dele_lines (greet false (codes "client")) ≢ broken
unfolding serve go_on step handle_command Command.parse Command.clean_line reduce_whitespace
    reduce_loop remove_first_and_last_white find_first_of Command.command_type_of tolower getlines
    handle_type handle_user find_user identify handle_pass check_pass log_in or_stop handle_dele
    dele_index or_syntax add_grave needs_auth stol after handle_quit greet new_session has_bits beq
    EmailAddress.parse find_last_of parse_brackets get_domain get_username
dele_lines_run = ground arith

handler-defined_example :
    Server.handler (λ d. false) false (codes "client") dele_lines ≢ undefined_read
handler-defined_example =
    handler-defined (λ d. false) false (codes "client") dele_lines dele_lines_run

abbrev logged_in : Conn
logged_in = record {
  session = record new_session { references = inbox; flags = flag_auth; account = bob };
  using_ssl = false;
  written = [];
}

handle_dele-DeleResult_example : DeleResult 1 logged_in (handle_dele (codes "2" ∷ []) logged_in)
unfolding new_session has_bits stol
handle_dele-DeleResult_example = handle_dele-DeleResult (codes "2") [] 2 logged_in refl refl

retr-one_past_example :
    (handle_retr env (codes "3" ∷ []) logged_in ≡ undefined)
    × (handle_dele (codes "3" ∷ []) logged_in ≡ thrown (syntax (max_index logged_in)) logged_in)
unfolding new_session has_bits stol
retr-one_past_example = retr-one_past env (codes "3") [] logged_in refl (omega arith) refl

abbrev stranger : Conn
stranger = record { session = new_session; using_ssl = false; written = [] }

handle_type-order_example :
    handle_type CommandType.retr env (codes "1" ∷ []) stranger
    ≡ thrown (order (codes "USER/PASS First.")) stranger
unfolding new_session has_bits
handle_type-order_example =
    handle_type-order CommandType.retr env (codes "1" ∷ []) stranger refl refl
