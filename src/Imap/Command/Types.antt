-- ===== src/Imap/Command/Types.antt =====
-- The names of the commands against the words that are read.
use fsmtp_v.Base.{map, ◌≡◌, refl}
use fsmtp_v.Base.Text.{Bytes, tolower, beq}
use fsmtp_v.Models.EmailAddress.{Attempt, ok, throws}
use fsmtp_v.Imap.Command.{CommandType, unknown, get_type, type_of}
use fsmtp_v.Imap.Response.{get_command_str}

-- The type that a command is read as: `RENAME`, `EXPUNGE` and `SEARCH` have no case.
abbrev pub read_type : CommandType → CommandType
read_type CommandType.rename = unknown
read_type CommandType.expunge = unknown
read_type CommandType.search = unknown
read_type t = t

-- What is read where the name is written, for a type that has a name.
abbrev Reads : CommandType → Attempt Bytes → Type 0
Reads t (ok name) = type_of (map tolower name) ≡ read_type t
Reads t (throws what) = t ≡ unknown

get_command_str-Reads : (t : CommandType) → Reads t (get_command_str t)
unfolding get_command_str type_of tolower beq
get_command_str-Reads unknown = refl
get_command_str-Reads t = refl

type_of-name :
    (t : CommandType) (name : Bytes) (a : Attempt Bytes)
    → a ≡ ok name
    → Reads t a
    → type_of (map tolower name) ≡ read_type t
type_of-name t name (ok n) h r = let same : n ≡ name = cc in rw (← same) r
type_of-name t name (throws what) h r = absurd cc

-- A command is read by the name that the server writes, in any case; every type has a name but
-- `unknown`, and three types are not read.
pub get_type-get_command_str :
    (t : CommandType) (name s : Bytes)
    → get_command_str t ≡ ok name
    → map tolower s ≡ map tolower name
    → get_type s ≡ read_type t
unfolding get_type
get_type-get_command_str t name s h same =
    rw (same) (type_of-name t name (get_command_str t) h (get_command_str-Reads t))
