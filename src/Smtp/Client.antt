-- ===== src/Smtp/Client.antt =====
-- lib/smtp/client: the SMTP client, what it keeps of one dialogue, and how it reads replies.
pub mod Flag
pub mod Action
pub mod Dialogue
pub mod Targets
use fsmtp_v.Base.{
  ℕ, zero, suc, Bool, true, false, List, [], ◌∷◌, ◌++◌, Option, none, some, ltb, ◌==◌, ◌-◌, ◌^◌,
  if◌then◌else◌, bit_and, bit_or, length, take, drop,
}
use fsmtp_v.Base.Text.{Bytes, find_first_of}
use fsmtp_v.Base.Numbers.{Stol, long, invalid_argument, out_of_range, stoi}
use fsmtp_v.General.Cleanup.{reduce_whitespace}
use fsmtp_v.General.Encoding.{escape_html}
use fsmtp_v.Models.EmailAddress.{EmailAddress}
use fsmtp_v.Smtp.Command.{ClientCommandType}
use fsmtp_v.Smtp.Session.{has_bits}

-- `SMTPClientSession`; its two words are non-negative.
pub record Session : Type 0 where
  pub performed_actions : ℕ
  pub flags : ℕ

abbrev pub new_session : Session
new_session = record { performed_actions = 0; flags = 0 }

unfoldable pub has_flag : ℕ → ℕ → Bool
unfolding has_bits
has_flag word mask = has_bits word mask

abbrev pub get_flag : Session → ℕ → Bool
get_flag s mask = has_flag s.flags mask

abbrev pub set_flag : Session → ℕ → Session
set_flag s mask = record s { flags = bit_or s.flags mask }

abbrev pub get_action : Session → ℕ → Bool
get_action s mask = has_bits s.performed_actions mask

abbrev pub set_action : Session → ℕ → Session
set_action s mask = record s { performed_actions = bit_or s.performed_actions mask }

-- `&= ~mask`, on 64 bits.
abbrev pub clear_action : Session → ℕ → Session
clear_action s mask = record s {
  performed_actions = bit_and s.performed_actions (2 ^ 64 - 1 - mask);
}

-- What the client writes to the socket: a command, or the message with its final line.
pub data Message : Type 0 where
  command : ClientCommandType → List Bytes → Message
  body : Bytes → Message

-- A message, and whether it goes over TLS.
pub record Written : Type 0 where
  pub message : Message
  pub secured : Bool

-- An entry of `s_ErrorLog`; `s_ErrorCount` is their number.
pub record Error : Type 0 where
  pub address : Bytes
  pub message : Bytes

-- One connection: the session, the state of the socket, the lines that the server has yet to send,
-- what was written, and the log. Writes to the socket are taken to succeed.
pub record Conn : Type 0 where
  pub session : Session
  pub using_ssl : Bool
  pub inbox : List Bytes
  pub written : List Written
  pub errors : List Error

-- The configuration, the client's fields, the target, and what the socket answers: why an upgrade to
-- TLS fails, if it does, and the text of the exception of a read.
-- `held` is what the variable `code` holds in a round that assigns nothing to it.
pub record Env : Type 0 where
  pub client_domain : Bytes
  pub domain : Bytes
  pub mail_from : EmailAddress
  pub target : EmailAddress
  pub transport_message : Bytes
  pub upgrade_fails : Option Bytes
  pub read_fails : Bytes
  pub held : Conn → ℕ

-- `sendCommand`, and the two writes of the message.
unfoldable pub write : Message → Conn → Conn
write m c = record c { written = c.written ++ record { message = m; secured = c.using_ssl } ∷ [] }

unfoldable pub add_error : Bytes → Bytes → List Error → List Error
add_error address message errors =
    errors ++ record { address = escape_html address; message = message } ∷ []

-- A line of the server: at least its four first bytes are read.
unfoldable pub mark_at_3 : Bytes → ℕ
mark_at_3 line = elim (drop 3 line) [ [] ↦ 0 | c ∷ rest ↦ c ]

-- `if (line[3] == '-') line[3] = ' ';`
unfoldable pub without_dash : Bytes → Bytes
unfolding mark_at_3
without_dash line = if mark_at_3 line == b'-' then take 3 line ++ b' ' ∷ drop 4 line else line

-- The text of a reply and the lines behind it, or how reading it fails: the socket throws, a line of
-- less than three bytes is read behind its end, or `substr(4)` throws.
pub data Read : Type 0 where
  got : Bytes → List Bytes → Read
  closed : Read
  too_short : Read
  substr_throws : Read

-- What is read of one line, and what follows it.
unfoldable pub read_line : Bool → Bytes → Bytes → (Bytes → Read) → List Bytes → Read
unfolding mark_at_3 without_dash
read_line first raw line more lines =
    if ltb (length line) 3
    then too_short
    else if first
    then (if mark_at_3 line == b' ' then got line lines else more (without_dash line))
    else if ltb (length line) 4
    then substr_throws
    else if mark_at_3 line == b' '
    then got (raw ++ drop 4 line) lines
    else more (raw ++ drop 4 line)

-- The loop over the lines of a reply, with the number of rounds that are left.
unfoldable pub read_lines : ℕ → Bool → Bytes → List Bytes → Read
unfolding read_line
read_lines zero first raw lines = got raw lines
read_lines (suc left) first raw [] = closed
read_lines (suc left) first raw (line ∷ lines) =
    read_line first raw line (λ text. read_lines left false text lines) lines

abbrev max_lines : ℕ
max_lines = 400

unfoldable pub read_reply : List Bytes → Read
unfolding read_lines
read_reply lines = read_lines max_lines true [] lines

-- The code and the text of a reply, cut at its first space, or the exception of `stoi`.
unfoldable pub response_at : Bytes → Option ℕ → Stol × Bytes
response_at clean none = (stoi clean, [])
response_at clean (some index) = (stoi (take index clean), drop (suc index) clean)

unfoldable pub parse_clean : Bytes → Stol × Bytes
unfolding response_at
parse_clean clean = response_at clean (find_first_of b' ' clean)

-- `ServerResponse::parseResponse`.
unfoldable pub parse_response : Bytes → Stol × Bytes
unfolding parse_clean
parse_response raw = parse_clean (reduce_whitespace raw)

-- A reply with its code and its text, or how receiving it fails: with an exception that the loop
-- catches, with one that leaves `beSocial`, or with undefined behaviour.
pub data Received : Type 0 where
  reply : ℕ → Bytes → List Bytes → Received
  caught : List Bytes → Received
  uncaught : Received
  undefined_behaviour : Received

unfoldable pub parsed : Stol × Bytes → List Bytes → Received
parsed (long code, args) lines = reply code args lines
parsed (invalid_argument, args) lines = caught lines
parsed (out_of_range, args) lines = uncaught

unfoldable pub received : Read → Received
unfolding parsed parse_response
received (got raw lines) = parsed (parse_response raw) lines
received closed = caught []
received too_short = undefined_behaviour
received substr_throws = uncaught

unfoldable pub receive : List Bytes → Received
unfolding received read_reply
receive lines = received (read_reply lines)
