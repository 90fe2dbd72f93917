-- ===== src/Smtp/Response.antt =====
-- lib/smtp/Response.src.cc: the text of a response of the server.
pub mod Lines
pub mod NoFeed
pub mod ReadBack
use fsmtp_v.Base.{ℕ, List, [], ◌∷◌, ◌++◌, Option, none, some, ◌==◌, if◌then◌else◌}
use fsmtp_v.Base.Text.{Bytes, codes}
use fsmtp_v.Base.Numbers.{to_string}
use fsmtp_v.Models.EmailAddress.{Attempt, ok, throws}
use fsmtp_v.Smtp.Reply.{
  ResponseType, greeting, ehlo, helo, mail_from, rcpt_to, data_start, data_end, quit_goodbye,
  syntax_err, order_err, invalid_command, start_tls, rec_not_local, auth_success, auth_fail,
  relay_fail, help_resp, auth_not_allowed, spam_alert, su_acc, su_denied, fcapa_resp, spf_reject,
  message_too_large,
}

-- `SMTPServiceFunction`.
pub record Service : Type 0 where
  pub name : Bytes
  pub sub_args : List Bytes

-- `ServerResponse`: the text and the argument that the handler gives, and the services, if any.
pub record ServerResponse : Type 0 where
  pub response : ResponseType
  pub message : Bytes
  pub subject : Bytes
  pub services : Option (List Service)

-- What the texts take from the configuration and the clock.
pub record Config : Type 0 where
  pub node_name : Bytes
  pub domain : Bytes
  pub date : Bytes

-- The texts for each type; the argument is written where the code writes it.
unfoldable pub default_message : Config → Bytes → ResponseType → Attempt Bytes
default_message conf u spam_alert = ok (codes "rejected; Blocked using zen.spamhaus.org")
default_message conf u auth_not_allowed = ok (codes "Mail from different then authenticated email")
default_message conf u data_start = ok (codes "End data with <CR><LF>.<CR><LF>")
default_message conf u spf_reject = ok (codes "Server not authorized, rejecting message.")
default_message conf u order_err = ok (codes "Invalid order, why: [unknown]")
default_message conf u invalid_command = ok (codes "unrecognized command.")
default_message conf u start_tls = ok (codes "Ready to start TLS")
default_message conf u quit_goodbye = ok (codes "Closing connection")
default_message conf u auth_success = ok (codes "Authentication successfull, welcome back.")
default_message conf u auth_fail = ok (codes "Authentication failed, closing transmission channel.")
default_message conf u relay_fail = ok (codes "Relay denied.")
default_message conf u help_resp =
    ok (codes "Fannst ESMTP server https://github.com/skywa04885/fsmtp-v2")
default_message conf u fcapa_resp = ok (codes "FSMTP-V2 Extensions implemented, Proceed.")
default_message conf u su_acc = ok (codes "Access granted for " ++ u)
default_message conf u su_denied = ok (codes "Access denied, closing transmission channel.")
default_message conf u message_too_large = ok (codes "Message too large")
default_message conf u greeting =
    ok (conf.node_name ++ (codes " Fannst ESMTP Mail service ready at " ++ conf.date))
default_message conf u helo = ok (conf.domain ++ (codes ", at your service " ++ u))
default_message conf u ehlo = ok (conf.domain ++ (codes ", at your service " ++ u))
default_message conf u mail_from = ok (codes "OK, proceed [" ++ (u ++ codes "]"))
default_message conf u rcpt_to = ok (codes "OK, proceed [" ++ (u ++ codes "]"))
default_message conf u rec_not_local = ok (codes "User [" ++ (u ++ codes "] not local."))
default_message conf u data_end = ok (codes "OK, message queued " ++ u)
default_message conf u syntax_err = throws (codes "getMessage() invalid type")

unfoldable pub get_message : Config → ServerResponse → Attempt Bytes
unfolding default_message
get_message conf r = elim r.message [
  | [] ↦ default_message conf r.subject r.response
  | c ∷ rest ↦ ok r.message
]

unfoldable pub get_code : ResponseType → ℕ
get_code spam_alert = 554
get_code greeting = 220
get_code ehlo = 250
get_code helo = 250
get_code mail_from = 250
get_code rcpt_to = 250
get_code data_start = 354
get_code data_end = 250
get_code quit_goodbye = 221
get_code syntax_err = 501
get_code order_err = 503
get_code invalid_command = 502
get_code start_tls = 220
get_code rec_not_local = 551
get_code auth_success = 235
get_code auth_fail = 530
get_code relay_fail = 551
get_code help_resp = 214
get_code auth_not_allowed = 551
get_code su_acc = 600
get_code su_denied = 651
get_code fcapa_resp = 601
get_code spf_reject = 550
get_code message_too_large = 556

unfoldable pub get_enhanced_code : ResponseType → Bytes
get_enhanced_code spam_alert = codes "5.7.1 "
get_enhanced_code data_start = []
get_enhanced_code greeting = []
get_enhanced_code ehlo = []
get_enhanced_code helo = []
get_enhanced_code mail_from = codes "2.1.0 "
get_enhanced_code rcpt_to = codes "2.1.5 "
get_enhanced_code data_end = codes "2.6.0 "
get_enhanced_code quit_goodbye = codes "2.0.0 "
get_enhanced_code syntax_err = codes "5.5.2 "
get_enhanced_code order_err = codes "5.5.1 "
get_enhanced_code invalid_command = codes "5.5.1 "
get_enhanced_code start_tls = codes "5.7.0 "
get_enhanced_code rec_not_local = codes "5.1.1 "
get_enhanced_code auth_success = codes "2.5.0 "
get_enhanced_code auth_fail = codes "5.5.0 "
get_enhanced_code relay_fail = codes "5.1.0 "
get_enhanced_code help_resp = codes "2.2.0 "
get_enhanced_code su_acc = codes "6.1.0 "
get_enhanced_code su_denied = codes "6.5.1 "
get_enhanced_code auth_not_allowed = codes "5.5.0 "
get_enhanced_code fcapa_resp = codes "6.1.1 "
get_enhanced_code spf_reject = codes "5.7.23 "
get_enhanced_code message_too_large = codes "5.3.4 "

abbrev pub crlf : Bytes
crlf = 13 ∷ 10 ∷ []

-- `stream << ' ' << arg` for each argument of a service.
unfoldable pub sub_args_text : List Bytes → Bytes
sub_args_text [] = []
sub_args_text (arg ∷ args) = b' ' ∷ (arg ++ sub_args_text args)

-- The separator behind the code: a space on the last line.
abbrev pub separator : List Service → ℕ
separator [] = b' '
separator (s ∷ ss) = b'-'

unfoldable pub service_line : ℕ → Service → List Service → Bytes
unfolding sub_args_text
service_line code s later = to_string code ++ separator later ∷ (s.name ++ sub_args_text s.sub_args)

unfoldable pub build_services : ℕ → List Service → Bytes
unfolding service_line
build_services code [] = []
build_services code (s ∷ ss) = service_line code s ss ++ (crlf ++ build_services code ss)

unfoldable pub build_with : ResponseType → Option (List Service) → Attempt Bytes → Attempt Bytes
unfolding get_code get_enhanced_code build_services
build_with t services (throws what) = throws what
build_with t none (ok message) =
    ok (to_string (get_code t) ++ b' ' ∷ (get_enhanced_code t ++ (message ++ codes " - fsmtp\r\n")))
build_with t (some services) (ok message) =
    ok
      (to_string (get_code t) ++ b'-' ∷ (message ++ (crlf ++ build_services (get_code t) services)))

unfoldable pub build : Config → ServerResponse → Attempt Bytes
unfolding build_with get_message
build conf r = build_with r.response r.services (get_message conf r)
