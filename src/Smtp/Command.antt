-- ===== src/Smtp/Command.antt =====
-- lib/smtp/Command.src.cc: a command line of an SMTP client, parsed and built.
pub mod RoundTrip
use fsmtp_v.Base.{
  ℕ, suc, Bool, true, false, ◌||◌, List, [], ◌∷◌, ◌++◌, map, Option, none, some, ◌==◌,
  if◌then◌else◌, take, drop,
}
use fsmtp_v.Base.Text.{Bytes, codes, beq, find_first_of, front, tolower, getlines}
use fsmtp_v.General.Cleanup.{reduce_whitespace}

pub data ClientCommandType : Type 0 where
  helo ehlo start_tls mail_from rcpt_to data_ quit unknown auth help su fcapa : ClientCommandType

pub record ClientCommand : Type 0 where
  pub command_type : ClientCommandType
  pub arguments : List Bytes

-- The switch on `command[0]`, on the lower-case command.
unfoldable pub command_type_of : Bytes → ClientCommandType
unfolding beq
command_type_of command =
    let c = front command in
    if c == b'h'
    then (if beq command (codes "helo")
        then helo
        else if beq command (codes "help")
        then help
        else unknown)
    else if c == b'e'
    then (if beq command (codes "ehlo") then ehlo else unknown)
    else if c == b's'
    then (if beq command (codes "starttls")
        then start_tls
        else if beq command (codes "su")
        then su
        else unknown)
    else if c == b'm'
    then (if beq command (codes "mail from") then mail_from else unknown)
    else if c == b'r'
    then (if beq command (codes "rcpt to") then rcpt_to else unknown)
    else if c == b'd'
    then (if beq command (codes "data") then data_ else unknown)
    else if c == b'q'
    then (if beq command (codes "quit") then quit else unknown)
    else if c == b'a'
    then (if beq command (codes "auth") then auth else unknown)
    else if c == b'f'
    then (if beq command (codes "fcapa") then fcapa else unknown)
    else unknown

-- The arguments behind the separator at `index`.
unfoldable pub arguments_of : Bytes → List Bytes
arguments_of args_raw = getlines b' ' (reduce_whitespace args_raw)

-- With the separator at `index`.
abbrev pub parse_at : Bytes → ℕ → ClientCommand
parse_at raw index = record {
  command_type = command_type_of (map tolower (take index raw));
  arguments = arguments_of (drop (suc index) raw);
}

-- A colon separates if there is one, else a space, else there are no arguments.
unfoldable pub parse : Bytes → ClientCommand
unfolding command_type_of arguments_of
parse raw = elim (find_first_of b':' raw) [
  | some index ↦ parse_at raw index
  | none ↦ elim (find_first_of b' ' raw) [
    | some index ↦ parse_at raw index
    | none ↦ record { command_type = command_type_of (map tolower raw); arguments = [] }
  ]
]

-- The first switch of `build`; no case writes a name for `CCT_UNKNOWN`.
unfoldable pub keyword : ClientCommandType → Bytes
keyword helo = codes "HELO"
keyword ehlo = codes "EHLO"
keyword start_tls = codes "STARTTLS"
keyword mail_from = codes "MAIL FROM"
keyword rcpt_to = codes "RCPT TO"
keyword data_ = codes "DATA"
keyword quit = codes "QUIT"
keyword auth = codes "AUTH"
keyword help = codes "HELP"
keyword su = codes "SU"
keyword fcapa = codes "FCAPA"
keyword unknown = []

abbrev pub takes_colon : ClientCommandType → Bool
takes_colon mail_from = true
takes_colon rcpt_to = true
takes_colon _ = false

-- `stream << ' ' << arg` for each argument.
unfoldable pub build_arguments : List Bytes → Bytes
build_arguments [] = []
build_arguments (arg ∷ args) = b' ' ∷ (arg ++ build_arguments args)

abbrev pub crlf : Bytes
crlf = b'\r' ∷ b'\n' ∷ []

-- The line that `build` writes, without and with its end.
unfoldable pub build_line : ClientCommand → Bytes
unfolding keyword build_arguments
build_line command =
    keyword command.command_type
    ++ ((if takes_colon command.command_type then b':' ∷ [] else [])
        ++ build_arguments command.arguments)

unfoldable pub build : ClientCommand → Bytes
build command = build_line command ++ crlf
