-- ===== src/Imap/Handlers.antt =====
-- lib/imap/IMAPAuthHandler.src.cc and lib/imap/IMAPMailboxHandler.src.cc: `LOGIN`, `LIST`, `LSUB` and
-- `SELECT`.
pub mod Leaves
use fsmtp_v.Base.{
  ℕ, suc, Bool, true, false, List, [], ◌∷◌, ◌++◌, Option, none, some, ◌==◌, if◌then◌else◌, length,
}
use fsmtp_v.Base.Text.{Bytes, codes, front, find_first_of, getlines}
use fsmtp_v.General.Cleanup.{remove_string_quotes}
use fsmtp_v.Models.Account.{AccountShortcut}
use fsmtp_v.Models.EmailAddress.{EmailAddress, Attempt, ok, throws, get_domain, get_username}
use fsmtp_v.Models.EmailAddress
use fsmtp_v.Imap.Parser.{Arguments, empty, push_back, Argument, atom, string}
use fsmtp_v.Imap.Command.{CommandType, Command}
use fsmtp_v.Imap.Response.{Mailbox, build_list, build_completed, build_select_information}
use fsmtp_v.Imap.Conn.{
  State, sel, flag_logged_in, set_flag, clear_flag, Env, Conn, bad, no, other, Outcome, done,
  thrown, send, or_no, or_throw,
}

-- `c_Args[0]` and `c_Args[1]`, where the vector has them.
unfoldable pub first_two : Arguments → Option (Argument × Argument)
first_two empty = none
first_two (push_back empty a) = none
first_two (push_back (push_back empty a) b) = some (a, b)
first_two (push_back args c) = first_two args

unfoldable pub first_one : Arguments → Option Argument
first_one empty = none
first_one (push_back empty a) = some a
first_one (push_back args b) = first_one args

-- The text of an atom or a string, without its quotes.
unfoldable pub text_of : Argument → Option Bytes
text_of (atom s) = some (remove_string_quotes s)
text_of (string s) = some (remove_string_quotes s)
text_of _ = none

-- The texts of the first two arguments, or the `IMAPBad`, with `few` if there are not two.
unfoldable pub two_texts :
    Bytes → Option (Argument × Argument) → Conn → (Bytes → Bytes → Outcome) → Outcome
unfolding text_of
two_texts few none c next = thrown (bad few) c
two_texts few (some (a, b)) c next = elim (text_of a) [
  | none ↦ thrown (bad (codes "Arguments invalid, required ATOM/STRING ATOM/STRING")) c
  | some x ↦ elim (text_of b) [
    | none ↦ thrown (bad (codes "Arguments invalid, required ATOM/STRING ATOM/STRING")) c
    | some y ↦ next x y
  ]
]

-- From the stored password on.
unfoldable pub check_password : Env → Bytes → Bytes → Bytes → Conn → Outcome
check_password env index pass valid c =
    if env.password_verify pass valid
    then send (record c { session = set_flag c.session flag_logged_in })
        (build_completed index CommandType.login)
    else thrown (no (codes "Password rejected"))
        (record c { session = clear_flag c.session flag_logged_in })

-- From the parsed address on: the account that is found is the session's before its password is read.
unfoldable pub identify : Env → Bytes → Bytes → Bytes → Bytes → Conn → Outcome
unfolding check_password
identify env index pass domain username c =
    or_no (codes "Username rejected: domain not local") (env.local_domain domain) c λ _.
      or_no (codes "Username rejected: user not local") (env.find_account domain username) c
        λ account.
          let known = record c { session = record (c.session) { account = account } } in
          or_no (codes "Username rejected: user deleted") (env.password_of domain account) known
            λ valid. check_password env index pass valid known

unfoldable pub login_as : Env → Bytes → Bytes → Attempt EmailAddress → Conn → Outcome
unfolding identify
login_as env index pass (throws _) c = thrown (bad (codes "Username rejected: invalid address")) c
login_as env index pass (ok address) c = elim (get_domain address) [
  | throws _ ↦ thrown other c
  | ok domain ↦ elim (get_username address) [
    | throws _ ↦ thrown other c
    | ok username ↦ identify env index pass domain username c
  ]
]

-- The user name with the configured domain, if it has none.
unfoldable pub full_user : Env → Bytes → Bytes
full_user env user = elim (find_first_of b'@' user) [
  | none ↦ user ++ b'@' ∷ env.domain
  | some at ↦ user
]

unfoldable pub login : Env → Command → Conn → Outcome
unfolding two_texts first_two full_user login_as
login env command c =
    two_texts (codes "Arguments invalid") (first_two command.args) c
      λ user pass. login_as env command.index pass (EmailAddress.parse (full_user env user)) c

-- `listQuery`: its type, with the depth of the layers.
pub data ListQuery : Type 0 where
  all : ListQuery
  layers : ℕ → ListQuery
  other_query : ListQuery

unfoldable pub list_query_from_string : Bytes → Bytes → ListQuery
list_query_from_string arg0 arg1 =
    if front arg1 == b'*'
    then all
    else if front arg1 == b'%'
    then layers (length (getlines b'/' arg1))
    else other_query

-- What the default of the switch does behind an answer.
unfoldable pub fall_through : Outcome → Outcome
fall_through (thrown e c) = thrown e c
fall_through (done c) = thrown other c

-- The switch of `list`: the case of the other queries goes on into the default.
unfoldable pub list_reply : Bytes → List Mailbox → ListQuery → Conn → Outcome
unfolding fall_through
list_reply index boxes all c = send c (build_list CommandType.list index boxes)
list_reply index boxes (layers depth) c = thrown other c
list_reply index boxes other_query c =
    fall_through (send c (build_completed index CommandType.list))

unfoldable pub list : Env → Command → Conn → Outcome
unfolding two_texts first_two list_reply list_query_from_string
list env command c = two_texts (codes "Invalid arguments") (first_two command.args) c λ arg0 arg1.
    or_throw (env.mailboxes_of c.session.account false) c
      λ boxes. list_reply command.index boxes (list_query_from_string arg0 arg1) c

unfoldable pub lsub_reply : Bytes → List Mailbox → ListQuery → Conn → Outcome
lsub_reply index boxes all c = send c (build_list CommandType.lsub index boxes)
lsub_reply index boxes _ c = thrown other c

unfoldable pub lsub : Env → Command → Conn → Outcome
unfolding two_texts first_two lsub_reply list_query_from_string
lsub env command c =
    two_texts (codes "Arguments argument count, required 2") (first_two command.args) c λ arg0 arg1.
      or_throw (env.mailboxes_of c.session.account true) c
        λ boxes. lsub_reply command.index boxes (list_query_from_string arg0 arg1) c

-- `select`, from its argument on.
unfoldable pub select_mailbox : Env → Bytes → Bytes → Conn → Outcome
select_mailbox env index name c =
    or_no (codes "Can't selekt mailbox") (env.status_of c.session.account name) c λ status.
      let s = record (c.session) { selected_mailbox = name; state = sel } in
      send (record c { session = s }) (build_select_information env.uid_next index status)

unfoldable pub select_argument : Env → Bytes → Option Argument → Conn → Outcome
unfolding text_of select_mailbox
select_argument env index none c = thrown (bad (codes "Invalid argument count, required 1")) c
select_argument env index (some a) c = elim (text_of a) [
  | none ↦ thrown (bad (codes "Invalid argument type, required STRING/ATOM")) c
  | some name ↦ select_mailbox env index name c
]

unfoldable pub select : Env → Command → Conn → Outcome
unfolding select_argument first_one
select env command c = select_argument env command.index (first_one command.args) c
