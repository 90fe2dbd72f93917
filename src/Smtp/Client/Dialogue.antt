-- ===== src/Smtp/Client/Dialogue.antt =====
-- lib/smtp/client/SMTPClient.src.cc, `beSocial`: the dialogue with the server of one target. The
-- cases of the switch fall through from top to bottom, so each is a function that ends in the next.
pub mod Stage
pub mod Hello
pub mod Cases
pub mod Outcome
pub mod Advances
pub mod Delivers
use fsmtp_v.Base.{
  ℕ, zero, suc, Bool, true, false, not, ◌&&◌, ◌||◌, List, [], ◌∷◌, ◌++◌, Option, none, some, ltb,
  ◌==◌, if◌then◌else◌, length, drop,
}
use fsmtp_v.Base.Text.{Bytes, codes, beq, is_prefix, find}
use fsmtp_v.Base.Numbers.{Stol, long, invalid_argument, out_of_range, to_string_signed}
use fsmtp_v.General.Cleanup.{reduce_whitespace, remove_first_and_last_white}
use fsmtp_v.Models.EmailAddress.{EmailAddress, Attempt, ok, throws, to_string, get_domain}
use fsmtp_v.Smtp.Session.{has_bits}
use fsmtp_v.Smtp.Command.{ClientCommandType}
use fsmtp_v.Smtp.Client.{
  Session, new_session, get_flag, set_flag, get_action, set_action, clear_action, Message, command,
  body, Written, Error, Conn, Env, write, add_error, mark_at_3, parse_response, Received, reply,
  caught, uncaught, undefined_behaviour, receive,
}
use fsmtp_v.Smtp.Client.Action
use fsmtp_v.Smtp.Client.Flag

-- A round of the loop: another follows, which reads a reply or does not; the loop ends; an exception
-- leaves `beSocial`; or the behaviour is undefined.
pub data Round : Type 0 where
  again : Bool → Conn → Round
  over : Conn → Round
  escapes : Conn → Round
  undefined : Round

abbrev pub with_flag : Conn → ℕ → Conn
with_flag c mask = record c { session = set_flag c.session mask }

abbrev pub with_action : Conn → ℕ → Conn
with_action c mask = record c { session = set_action c.session mask }

abbrev pub send : ClientCommandType → List Bytes → Conn → Conn
send t args c = write (command t args) c

-- The action is set, and the command written.
abbrev perform : ℕ → ClientCommandType → List Bytes → Conn → Round
perform mask t args c = again true (send t args (with_action c mask))

-- `addError` for the target, and `_run = false`.
unfoldable pub fail : Env → Bytes → Conn → Round
fail env message c = over (record c { errors = add_error (to_string env.target) message c.errors })

unfoldable pub case_default : Env → ℕ → Bytes → Conn → Round
unfolding fail
case_default env code args c =
    fail env (codes "Transmission error: " ++ (to_string_signed code ++ (codes ": " ++ args))) c

-- The answer to SU, then to FCAPA: none, or the error.
unfoldable pub su_verdict : Stol × Bytes → Option Bytes
su_verdict (long code, args) =
    if code == 600
    then none
    else if code == 651
    then some (codes "FSMTP-V2 Error: Access denied to server, check SPF")
    else some (codes "FSMTP-V2 Error: SU Failed")
su_verdict (_, args) = some (codes "An unknown FSMTP-V2 Error occured")

unfoldable pub fcapa_verdict : Stol × Bytes → Option Bytes
fcapa_verdict (long code, args) =
    if code == 601 then none else some (codes "FSMTP-V2 Error: FCAPA Not supported")
fcapa_verdict (_, args) = some (codes "An unknown FSMTP-V2 Error occured")

abbrev pub read_error : Env → Bytes
read_error env = codes "FSMTP-V2 Error: " ++ env.read_fails

-- A command without arguments and the line that answers it.
unfoldable pub answered :
    Env → (Stol × Bytes → Option Bytes) → Conn → List Bytes → Option Bytes × Conn
answered env verdict c [] = (some (read_error env), c)
answered env verdict c (line ∷ lines) = (verdict (parse_response line), record c { inbox = lines })

unfoldable pub ask :
    Env → ClientCommandType → (Stol × Bytes → Option Bytes) → Conn → Option Bytes × Conn
unfolding answered
ask env t verdict c = answered env verdict (send t [] c) c.inbox

unfoldable pub and_then : Option Bytes × Conn → (Conn → Option Bytes × Conn) → Option Bytes × Conn
and_then (none, c) next = next c
and_then (some what, c) next = (some what, c)

-- The extensions are asked for where the target has the domain of this server.
unfoldable pub extend : Env → Conn → Attempt Bytes → Option Bytes × Conn
unfolding ask and_then su_verdict fcapa_verdict
extend env c (throws what) = (some (codes "FSMTP-V2 Error: " ++ what), c)
extend env c (ok domain) =
    if beq domain env.domain
    then and_then (ask env ClientCommandType.fcapa fcapa_verdict c)
        (ask env ClientCommandType.su su_verdict)
    else (none, c)

unfoldable pub ask_extensions : Env → Conn → Option Bytes × Conn
unfolding extend
ask_extensions env c = extend env c (get_domain env.target)

-- The text of an option: without the code, and with single spaces.
unfoldable pub option_of : Bytes → Bytes
option_of line = remove_first_and_last_white (reduce_whitespace (drop 4 line))

unfoldable pub option_flag : Bytes → Session → Session
option_flag text s =
    if beq text (codes "STARTTLS")
    then set_flag s Flag.starttls
    else if beq text (codes "8BITMIME")
    then set_flag s Flag.eight_bit_mime
    else if beq text (codes "ENHANCEDSTATUSCODES")
    then set_flag s Flag.enhanced_status_codes
    else if beq text (codes "PIPELINING")
    then set_flag s Flag.pipelining
    else if beq text (codes "CHUNKING")
    then set_flag s Flag.chunking
    else s

unfoldable pub option_flags : List Bytes → Session → Session
unfolding option_flag
option_flags [] s = s
option_flags (text ∷ texts) s = option_flags texts (option_flag text s)

-- The lines of the answer to EHLO: the options and the lines behind them, or the exception of a read
-- that the loop catches, or that of `substr(4)`, which it does not. A line with less than four bytes
-- has thrown before `line[3]` is read.
pub data Options : Type 0 where
  listed : List Bytes → List Bytes → Options
  unread : Options
  substr_throws : Options

unfoldable pub add_option : Bytes → Options → Options
add_option text (listed texts lines) = listed (text ∷ texts) lines
add_option text unread = unread
add_option text substr_throws = substr_throws

unfoldable pub read_options : List Bytes → Options
unfolding option_of add_option mark_at_3
read_options [] = unread
read_options (line ∷ lines) =
    let more = read_options lines in
    if ltb (length line) 4
    then substr_throws
    else if mark_at_3 line == b'-'
    then add_option (option_of line) more
    else listed (option_of line ∷ []) lines

-- Behind EHLO; the next round reads no reply, and the 250 that is written to `code` here is gone by
-- then, since the variable is a new one in each round.
unfoldable pub read_hello : Conn → Options → Round
unfolding option_flags
read_hello c (listed texts lines) =
    again false (record c { session = option_flags texts c.session; inbox = lines })
read_hello c unread = over (record c { inbox = [] })
read_hello c substr_throws = escapes c

unfoldable pub say_ehlo : Env → Conn → Round
unfolding read_hello read_options
say_ehlo env c =
    let sent = send ClientCommandType.ehlo (env.client_domain ∷ []) (with_action c Action.helo) in
    read_hello sent (read_options sent.inbox)

unfoldable pub hello_after : Env → Option Bytes × Conn → Round
unfolding fail say_ehlo
hello_after env (none, c) = say_ehlo env c
hello_after env (some what, c) = fail env what c

-- HELO is written without a `break` behind it.
unfoldable pub say_helo : Env → ℕ → Bytes → Conn → Round
unfolding case_default
say_helo env code args c =
    case_default env code args
      (send ClientCommandType.helo (env.client_domain ∷ []) (with_action c Action.helo))

unfoldable pub hello : Env → ℕ → Bytes → Conn → Round
unfolding hello_after ask_extensions say_helo case_default
hello env code args c =
    if not (get_action c.session Action.helo) && get_flag c.session Flag.esmtp
    then hello_after env (ask_extensions env c)
    else if not (get_action c.session Action.helo) && not (get_flag c.session Flag.esmtp)
    then say_helo env code args c
    else case_default env code args c

-- The greeting of the server tells whether it speaks ESMTP.
unfoldable pub note_esmtp : Bytes → Conn → Conn
note_esmtp args c =
    if not (get_action c.session Action.helo) && not (get_flag c.session Flag.esmtp)
    then (if find (codes "ESMTP") args then with_flag c Flag.esmtp else c)
    else c

abbrev pub greet : Env → ℕ → Bytes → Conn → Round
greet env code args c = hello env code args (note_esmtp args c)

-- With the exception of the upgrade, if it throws.
unfoldable pub upgraded : Env → ℕ → Bytes → Conn → Option Bytes → Round
unfolding hello note_esmtp fail
upgraded env code args c (some what) =
    fail env (codes "SSL Initialization error: " ++ what) (with_action c Action.start_tls_finished)
upgraded env code args c none = greet env code args (record c {
  using_ssl = true;
  session = clear_action (set_action c.session Action.start_tls_finished) Action.helo;
})

unfoldable pub upgrade : Env → ℕ → Bytes → Conn → Round
unfolding upgraded
upgrade env code args c = upgraded env code args c env.upgrade_fails

unfoldable pub case_220 : Env → ℕ → Bytes → Conn → Round
unfolding hello note_esmtp upgrade
case_220 env code args c =
    if get_action c.session Action.data_end && not (get_action c.session Action.quit)
    then perform Action.quit ClientCommandType.quit [] c
    else if get_action c.session Action.start_tls
        && (not (get_action c.session Action.start_tls_finished) && get_flag c.session Flag.esmtp)
    then upgrade env code args c
    else greet env code args c

unfoldable pub case_354 : Env → ℕ → Bytes → Conn → Round
unfolding case_220
case_354 env code args c =
    if get_action c.session Action.data_start && not (get_action c.session Action.data_end)
    then again true (write (body env.transport_message) (with_action c Action.data_end))
    else case_220 env code args c

-- `"<" + address + ">"`.
abbrev pub bracketed : EmailAddress → Bytes
bracketed e = b'<' ∷ (e.address ++ b'>' ∷ [])

unfoldable pub case_250 : Env → ℕ → Bytes → Conn → Round
unfolding case_354
case_250 env code args c =
    if get_action c.session Action.helo
      && (not (get_action c.session Action.start_tls) && get_flag c.session Flag.esmtp)
    then perform Action.start_tls ClientCommandType.start_tls [] c
    else if (get_action c.session Action.helo && not (get_flag c.session Flag.esmtp))
        || (get_action c.session Action.start_tls_finished
            && (get_flag c.session Flag.esmtp && not (get_action c.session Action.mail_from)))
    then perform Action.mail_from ClientCommandType.mail_from (bracketed env.mail_from ∷ []) c
    else if get_action c.session Action.mail_from && not (get_action c.session Action.rcpt_to)
    then perform Action.rcpt_to ClientCommandType.rcpt_to (bracketed env.target ∷ []) c
    else if get_action c.session Action.rcpt_to
        && (not (get_action c.session Action.data_start)
            && not (get_action c.session Action.data_end))
    then perform Action.data_start ClientCommandType.data_ [] c
    else case_354 env code args c

unfoldable pub case_221 : Env → ℕ → Bytes → Conn → Round
unfolding case_250
case_221 env code args c =
    if get_action c.session Action.quit then over c else case_250 env code args c

unfoldable pub on_code : Env → ℕ → Bytes → Conn → Round
unfolding case_221 case_250 case_354 case_220 case_default
on_code env code args c =
    if code == 221
    then case_221 env code args c
    else if code == 250
    then case_250 env code args c
    else if code == 354
    then case_354 env code args c
    else if code == 220
    then case_220 env code args c
    else case_default env code args c

-- Where receiving has failed the switch still runs, and no round follows it.
unfoldable pub last : Round → Round
last (again perform c) = over c
last (over c) = over c
last (escapes c) = escapes c
last undefined = undefined

unfoldable pub on_received : Env → Conn → Received → Round
unfolding on_code last
on_received env c (reply code args lines) = on_code env code args (record c { inbox = lines })
on_received env c (caught lines) = last (on_code env (env.held c) [] (record c { inbox = lines }))
on_received env c uncaught = escapes c
on_received env c undefined_behaviour = undefined

-- One round; the flag is `_performParse`.
unfoldable pub round : Env → Bool → Conn → Round
unfolding on_received on_code
round env true c = on_received env c (receive c.inbox)
round env false c = on_code env (env.held c) [] c

-- How a dialogue ends.
pub data Ended : Type 0 where
  finished : Conn → Ended
  escaped : Conn → Ended
  broken : Ended
  out_of_fuel : Ended

unfoldable pub next : (Bool → Conn → Ended) → Round → Ended
next more (again perform c) = more perform c
next more (over c) = finished c
next more (escapes c) = escaped c
next more undefined = broken

-- The loop, on fuel.
unfoldable pub run : ℕ → Env → Bool → Conn → Ended
unfolding next round
run zero env perform c = out_of_fuel
run (suc fuel) env perform c = next (run fuel env) (round env perform c)

abbrev pub opened : List Bytes → List Error → Conn
opened lines errors = record {
  session = new_session;
  using_ssl = false;
  inbox = lines;
  written = [];
  errors = errors;
}
