-- ===== src/Imap/Server/Bypass.antt =====
-- What a client gets from the server after a login that has failed.
use fsmtp_v.Base.{false, List, some, ◌-◌, ◌^◌, ◌≡◌, refl, arith}
use fsmtp_v.Base.Text.{Bytes, codes}
use fsmtp_v.Models.Account.{AccountShortcut, found}
use fsmtp_v.Models.EmailAddress.{EmailAddress, ok, get_domain, get_username}
use fsmtp_v.Models.EmailAddress
use fsmtp_v.Smtp.Session.Laws.{has_bits-clear}
use fsmtp_v.Imap.Parser.{Argument}
use fsmtp_v.Imap.Command.{CommandType, Command}
use fsmtp_v.Imap.Response.{Mailbox, build_list}
use fsmtp_v.Imap.Conn.{
  flag_logged_in, get_flag, clear_flag, Env, Conn, no, thrown, send, or_no, or_throw,
}
use fsmtp_v.Imap.Handlers.{
  first_two, text_of, two_texts, full_user, login_as, identify, check_password, login, list,
  list_reply, list_query_from_string,
}

-- The account that the arguments of a `LOGIN` name, where each query up to it answers.
pub record Known (env : Env) (cmd : Command) : Type 0 where
  pub user : Bytes
  pub pass : Bytes
  pub first : Argument
  pub second : Argument
  pub given : first_two cmd.args ≡ some (first, second)
  pub first_text : text_of first ≡ some user
  pub second_text : text_of second ≡ some pass
  pub address : EmailAddress
  pub parses : EmailAddress.parse (full_user env user) ≡ ok address
  pub domain : Bytes
  pub has_domain : get_domain address ≡ ok domain
  pub username : Bytes
  pub has_username : get_username address ≡ ok username
  pub local : env.local_domain domain ≡ found tt
  pub account : AccountShortcut
  pub finds : env.find_account domain username ≡ found account

-- The connection behind the failed login: nobody is logged in, and the account is the session's.
abbrev pub rejected : Conn → AccountShortcut → Conn
rejected c account = record c {
  session = clear_flag (record (c.session) { account = account }) flag_logged_in;
}

login-rejected :
    (env : Env) (cmd : Command) (c : Conn) (k : Known env cmd) (stored : Bytes)
    → env.password_of k.domain k.account ≡ found stored
    → env.password_verify k.pass stored ≡ false
    → login env cmd c ≡ thrown (no (codes "Password rejected")) (rejected c k.account)
unfolding login two_texts login_as identify check_password or_no
login-rejected env cmd c k stored has_password wrong =
    rw
      (
        k.given, two_texts, k.first_text, k.second_text, k.parses, login_as, k.has_domain,
        k.has_username, k.local, k.finds, has_password, wrong,
      )
      refl

-- After a login with a wrong password `LIST` answers with the mailboxes of the account, and nobody
-- is logged in.
pub list-rejected :
    (env env' : Env) (cmd next : Command) (c : Conn) (k : Known env cmd) (boxes : List Mailbox)
    (reference : Argument) (pattern : Argument) (ref_text stored : Bytes)
    → env.password_of k.domain k.account ≡ found stored
    → env.password_verify k.pass stored ≡ false
    → first_two next.args ≡ some (reference, pattern)
    → text_of reference ≡ some ref_text
    → text_of pattern ≡ some (codes "*")
    → env'.mailboxes_of k.account false ≡ found boxes
    → (login env cmd c ≡ thrown (no (codes "Password rejected")) (rejected c k.account))
      × (get_flag (rejected c k.account).session flag_logged_in ≡ false)
      × (list env' next (rejected c k.account)
          ≡ send (rejected c k.account) (build_list CommandType.list next.index boxes))
unfolding list list_reply two_texts list_query_from_string or_throw
list-rejected env env' cmd next c k boxes reference pattern ref_text stored has_password wrong given
      rt pt has_boxes =
    (
      login-rejected env cmd c k stored has_password wrong,
      has_bits-clear c.session.flags (2 ^ 64 - 1 - flag_logged_in) flag_logged_in refl
          (λ e. ground (arith, e)),
      rw (given, two_texts, rt, pt, has_boxes) refl,
    )
