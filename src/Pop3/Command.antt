-- ===== src/Pop3/Command.antt =====
-- lib/pop3/P3Commands.src.cc: a command line of a POP3 client.
use fsmtp_v.Base.{suc, List, [], map, none, some, ◌==◌, if◌then◌else◌, take, drop}
use fsmtp_v.Base.Text.{Bytes, codes, beq, find_first_of, front, tolower, getlines}
use fsmtp_v.General.Cleanup.{reduce_whitespace, remove_first_and_last_white}

pub data CommandType : Type 0 where
  capa quit stls user pass unknown stat uidl list retr dele top rset implementation : CommandType

pub record Command : Type 0 where
  pub command_type : CommandType
  pub args : List Bytes

-- The switch on `command[0]`, on the lower-case command.
unfoldable pub command_type_of : Bytes → CommandType
unfolding beq
command_type_of command =
    let c = front command in
    if c == b'c'
    then (if beq command (codes "capa") then capa else unknown)
    else if c == b't'
    then (if beq command (codes "top") then top else unknown)
    else if c == b'q'
    then (if beq command (codes "quit") then quit else unknown)
    else if c == b's'
    then (if beq command (codes "stls")
        then stls
        else if beq command (codes "stat")
        then stat
        else unknown)
    else if c == b'u'
    then (if beq command (codes "user")
        then user
        else if beq command (codes "uidl")
        then uidl
        else unknown)
    else if c == b'p'
    then (if beq command (codes "pass") then pass else unknown)
    else if c == b'l'
    then (if beq command (codes "list") then list else unknown)
    else if c == b'r'
    then (if beq command (codes "retr")
        then retr
        else if beq command (codes "rset")
        then rset
        else unknown)
    else if c == b'i'
    then (if beq command (codes "implementation") then implementation else unknown)
    else if c == b'd'
    then (if beq command (codes "dele") then dele else unknown)
    else unknown

-- The text is cleaned twice: `reduceWhitespace` ends in `removeFirstAndLastWhite` itself.
unfoldable pub clean_line : Bytes → Bytes
clean_line raw = remove_first_and_last_white (reduce_whitespace raw)

unfoldable pub parse : Bytes → Command
parse raw =
    let clean = clean_line raw in
    elim (find_first_of b' ' clean) [
      | none ↦ record { command_type = command_type_of (map tolower clean); args = [] }
      | some index ↦ record {
        command_type = command_type_of (map tolower (take index clean));
        args = getlines b' ' (drop (suc index) clean);
      }
    ]
