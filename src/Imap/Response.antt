-- ===== src/Imap/Response.antt =====
-- lib/imap/IMAPResponse.src.cc: the responses of the server, as they are written.
use fsmtp_v.Base.{
  ℕ, ◌-◌, ◌^◌, List, [], ◌∷◌, ◌++◌, Option, none, some, ◌==◌, ltb, if◌then◌else◌, map,
}
use fsmtp_v.Base.Text.{Bytes, codes}
use fsmtp_v.Base.Numbers.{to_string}
use fsmtp_v.Models.EmailAddress.{Attempt, ok, throws}
use fsmtp_v.Smtp.Session.{has_bits}
use fsmtp_v.Imap.Command.{CommandType}

-- `c_str()`, written to a stream: the text up to its first NUL.
unfoldable pub c_str : Bytes → Bytes
c_str [] = []
c_str (c ∷ s) = let rest = c_str s in if c == 0 then [] else c ∷ rest

-- An `int32_t`, given by its 32-bit pattern.
unfoldable pub int32_text : ℕ → Bytes
int32_text n = if ltb n (2 ^ 31) then to_string n else b'-' ∷ to_string (2 ^ 32 - n)

-- A section of a line with its value, which no function here leaves out.
pub data Section : Type 0 where
  list : List Bytes → Section
  string atom brackets : Bytes → Section
  ok_word bad_word no_word : Section
  completed command : CommandType → Section
  int32 : ℕ → Section

-- A line; without an index it is untagged.
pub record Line : Type 0 where
  pub index : Option Bytes
  pub sections : List Section

unfoldable pub get_command_str : CommandType → Attempt Bytes
get_command_str CommandType.list = ok (codes "LIST")
get_command_str CommandType.lsub = ok (codes "LSUB")
get_command_str CommandType.authenticate = ok (codes "AUTHENTICATE")
get_command_str CommandType.login = ok (codes "LOGIN")
get_command_str CommandType.starttls = ok (codes "STARTTLS")
get_command_str CommandType.logout = ok (codes "LOGOUT")
get_command_str CommandType.capability = ok (codes "CAPABILITY")
get_command_str CommandType.select = ok (codes "SELECT")
get_command_str CommandType.examine = ok (codes "EXAMINE")
get_command_str CommandType.create = ok (codes "CREATE")
get_command_str CommandType.delete = ok (codes "DELETE")
get_command_str CommandType.rename = ok (codes "RENAME")
get_command_str CommandType.subscribe = ok (codes "SUBSCRIBE")
get_command_str CommandType.unsubscribe = ok (codes "UNSUBSCRIBE")
get_command_str CommandType.status = ok (codes "STATUS")
get_command_str CommandType.append = ok (codes "APPEND")
get_command_str CommandType.check = ok (codes "CHECK")
get_command_str CommandType.close = ok (codes "CLOSE")
get_command_str CommandType.expunge = ok (codes "EXPUNGE")
get_command_str CommandType.search = ok (codes "SEARCH")
get_command_str CommandType.fetch = ok (codes "FETCH")
get_command_str CommandType.store = ok (codes "STORE")
get_command_str CommandType.copy = ok (codes "COPY")
get_command_str CommandType.uid = ok (codes "UID")
get_command_str CommandType.noop = ok (codes "NOOP")
get_command_str CommandType.unknown = throws (codes "Type not implemented")

-- Texts with a space between two of them.
unfoldable pub spaced : List Bytes → Bytes
spaced [] = []
spaced (s ∷ []) = s
spaced (s ∷ t ∷ rest) = s ++ b' ' ∷ spaced (t ∷ rest)

-- The text of a command with `behind` after it.
unfoldable pub command_text : CommandType → Bytes → Attempt Bytes
unfolding get_command_str
command_text t behind = elim (get_command_str t) [ throws e ↦ throws e | ok s ↦ ok (s ++ behind) ]

unfoldable pub section_text : Section → Attempt Bytes
unfolding command_text spaced int32_text c_str
section_text (list elements) = ok (b'(' ∷ spaced (map c_str elements) ++ codes ")")
section_text (string s) = ok (b'"' ∷ c_str s ++ codes "\"")
section_text (atom s) = ok (c_str s)
section_text (brackets s) = ok (b'[' ∷ c_str s ++ codes "]")
section_text ok_word = ok (codes "OK")
section_text bad_word = ok (codes "BAD")
section_text no_word = ok (codes "NO")
section_text (command t) = command_text t []
section_text (completed t) = command_text t (codes " completed")
section_text (int32 n) = ok (int32_text n)

-- The sections of a line, and what is behind the last one.
unfoldable pub sections_text : List Section → Bytes → Attempt Bytes
unfolding section_text
sections_text [] behind = ok behind
sections_text (s ∷ []) behind = elim (section_text s) [
  | throws e ↦ throws e
  | ok text ↦ ok (text ++ behind)
]
sections_text (s ∷ t ∷ rest) behind =
    let more = sections_text (t ∷ rest) behind in
    elim (section_text s) [
      | throws e ↦ throws e
      | ok text ↦ elim more [ throws e ↦ throws e | ok last ↦ ok (text ++ b' ' ∷ last) ]
    ]

unfoldable pub line_start : Option Bytes → Bytes
unfolding c_str
line_start none = codes "* "
line_start (some index) = c_str index ++ codes " "

unfoldable pub build : List Line → Attempt Bytes
unfolding sections_text line_start
build [] = ok []
build (line ∷ lines) =
    let rest = build lines in
    elim (sections_text line.sections (codes "\r\n")) [
      | throws e ↦ throws e
      | ok text ↦ elim rest [
        | throws e ↦ throws e
        | ok more ↦ ok (line_start line.index ++ text ++ more)
      ]
    ]

abbrev untagged : List Section → Line
untagged sections = record { index = none; sections = sections }

abbrev tagged : Bytes → List Section → Line
tagged index sections = record { index = some index; sections = sections }

-- A capability: its key, and its value if it has one.
abbrev pub Capability : Type 0
Capability = Bytes × Option Bytes

unfoldable pub capability_text : Capability → Bytes
capability_text (key, none) = key
capability_text (key, some value) = key ++ b'=' ∷ value

unfoldable pub build_capabilities : Bytes → List Capability → Attempt Bytes
unfolding build capability_text spaced
build_capabilities index capabilities = build (
    untagged (atom (codes "CAPABILITY") ∷ atom (spaced (map capability_text capabilities)) ∷ [])
    ∷ tagged index (ok_word ∷ completed CommandType.capability ∷ [])
    ∷ [])

-- The text of one flag, if its bit is set.
abbrev flag_text : ℕ → ℕ → Bytes → List Bytes
flag_text flags mask text = if has_bits flags mask then text ∷ [] else []

unfoldable pub build_mailbox_flags : ℕ → List Bytes
build_mailbox_flags flags =
    (if has_bits flags 1 then codes "\\HasChildren" else codes "\\HasNoChildren")
      ∷ flag_text flags 2 (codes "\\UnMarked")
    ++ flag_text flags 64 (codes "\\Marked")
    ++ flag_text flags 128 (codes "\\Junk")
    ++ flag_text flags 32 (codes "\\Draft")
    ++ flag_text flags 16 (codes "\\Sent")
    ++ flag_text flags 4 (codes "\\Archive")

-- The fields of `Mailbox` that are written: `e_Flags` and `e_MailboxPath`.
pub record Mailbox : Type 0 where
  pub flags : ℕ
  pub mailbox_path : Bytes

unfoldable pub mailbox_line : CommandType → Mailbox → Line
unfolding build_mailbox_flags
mailbox_line t m = untagged (
    command t
    ∷ list (build_mailbox_flags m.flags)
    ∷ string (codes ".")
    ∷ string m.mailbox_path
    ∷ [])

unfoldable pub build_completed : Bytes → CommandType → Attempt Bytes
unfolding build
build_completed index t = build (tagged index (ok_word ∷ completed t ∷ []) ∷ [])

unfoldable pub build_list : CommandType → Bytes → List Mailbox → Attempt Bytes
unfolding build mailbox_line build_completed
build_list t index [] = build_completed index t
build_list t index (m ∷ ms) =
    let rest = build_list t index ms in
    elim (build (mailbox_line t m ∷ [])) [
      | throws e ↦ throws e
      | ok text ↦ elim rest [ throws e ↦ throws e | ok more ↦ ok (text ++ more) ]
    ]

unfoldable pub build_greeting : Bytes → Attempt Bytes
unfolding build
build_greeting node_name = build (
    untagged (
      ok_word
      ∷ atom node_name
      ∷ atom (codes "Fannst IMAP4rev1 service ready - max 1.800.000ms")
      ∷ [])
    ∷ [])

unfoldable pub build_bad : Bytes → Bytes → Attempt Bytes
unfolding build
build_bad index reason = build (tagged index (bad_word ∷ atom reason ∷ []) ∷ [])

unfoldable pub build_no : Bytes → Bytes → Attempt Bytes
unfolding build
build_no index reason = build (tagged index (no_word ∷ atom reason ∷ []) ∷ [])

-- The counters and the flags of a `MailboxStatus`, each an `int32_t`.
pub record MailboxStatus : Type 0 where
  pub flags : ℕ
  pub unseen : ℕ
  pub total : ℕ
  pub recent : ℕ

-- `buildSelectInformation`. Nothing writes the buffer `uidNext`: its content is an argument.
unfoldable pub build_select_information : Bytes → Bytes → MailboxStatus → Attempt Bytes
unfolding build build_mailbox_flags int32_text
build_select_information uid_next index status = build (
    untagged (int32 status.total ∷ atom (codes "EXISTS") ∷ [])
    ∷ untagged (int32 status.recent ∷ atom (codes "RECENT") ∷ [])
    ∷ untagged (
        ok_word
        ∷ brackets (codes "UNSEEN " ++ int32_text status.unseen)
        ∷ atom (codes "Message")
        ∷ int32 status.unseen
        ∷ atom (codes "is first unseen")
        ∷ [])
    ∷ untagged (
        ok_word
        ∷ brackets (codes "UIDVALIDITY " ++ int32_text (2 ^ 31 - 1))
        ∷ atom (codes "UIDs valid")
        ∷ [])
    ∷ untagged (ok_word ∷ brackets uid_next ∷ atom (codes "predicted next UID") ∷ [])
    ∷ untagged (atom (codes "FLAGS") ∷ list (build_mailbox_flags status.flags) ∷ [])
    ∷ untagged (
        ok_word
        ∷ brackets (codes "PERMANENTFLAGS (\\Flagged \\Seen \\Answered \\Deleted \\Draft)")
        ∷ atom (codes "LIMITED")
        ∷ [])
    ∷ tagged index (ok_word ∷ brackets (codes "READ-WRITE") ∷ completed CommandType.select ∷ [])
    ∷ [])

unfoldable pub build_email_flag_list : ℕ → Bytes
unfolding spaced
build_email_flag_list flags =
    let texts =
      flag_text flags 32 (codes "\\RECENT")
      ++ flag_text flags 1 (codes "\\SEEN")
      ++ flag_text flags 8 (codes "\\DELETED")
      ++ flag_text flags 2 (codes "\\ANSWERERED")
      ++ flag_text flags 16 (codes "\\DRAFT") in
    b'(' ∷ spaced texts ++ codes ")"
