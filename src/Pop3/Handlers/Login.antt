-- ===== src/Pop3/Handlers/Login.antt =====
-- lib/pop3/P3Server.src.cc, `USER` and `PASS`.
use fsmtp_v.Base.{false, not, List, [], ◌∷◌, ◌++◌, none, some, if◌then◌else◌}
use fsmtp_v.Base.Text.{Bytes, codes, find_first_of}
use fsmtp_v.Models.Account.{found, empty_query, database_exception, runtime_error}
use fsmtp_v.Models.EmailAddress
use fsmtp_v.Models.EmailAddress.{EmailAddress, ok, throws, get_domain, get_username}
use fsmtp_v.Pop3.Conn.{
  flag_auth, action_user, action_pass, get_flag, set_flag, get_action, set_action, ResponseType,
  Conn, order, syntax, other, Outcome, done, thrown, write, with_session, plain, failing,
}
use fsmtp_v.Pop3.Handlers.{Env, or_stop}

-- From the verified password on.
unfoldable pub log_in : Env → Bytes → Conn → Outcome
log_in env pass c = or_stop (env.references_of c.session.account) c λ refs.
    let s = record (c.session) { references = refs; pass = pass } in
    let known = set_flag (set_action s action_pass) flag_auth in
    done false (write (with_session c known) (plain ResponseType.auth_success))

unfoldable pub check_pass : Env → Bytes → Conn → Outcome
check_pass env pass c =
    let account = c.session.account in
    elim (env.password_of account) [
      | empty_query ↦
          let error =
            codes "user ["
            ++ account.username
            ++ b'@' ∷ account.domain
            ++ codes "] was not found in cassandra." in
          done false (write c (failing ResponseType.auth_fail error))
      | database_exception ↦ thrown other c
      | runtime_error ↦ thrown other c
      | found hash ↦
          if not (env.password_verify pass hash)
          then done false (write c (failing ResponseType.auth_fail (codes "invalid password")))
          else log_in env pass c
    ]

unfoldable pub handle_pass : Env → List Bytes → Conn → Outcome
handle_pass env args c =
    if get_flag c.session flag_auth
    then thrown (order (codes "Client already authenticated.")) c
    else if not (get_action c.session action_user)
    then thrown (order (codes "USER first.")) c
    else elim args [
      | [] ↦ thrown (syntax (codes "PASS requires one argument")) c
      | pass ∷ _ ↦ check_pass env pass c
    ]

-- The search for the account, with the argument as it is stored.
unfoldable pub identify : Env → Bytes → EmailAddress → Bytes → Conn → Outcome
identify env arg address domain c = elim (get_username address) [
  | throws _ ↦ thrown other c
  | ok username ↦ elim (env.find_account domain username) [
    | database_exception ↦ thrown other c
    | runtime_error ↦ thrown other c
    | empty_query ↦
        let error = codes "user [" ++ address.address ++ codes "] was not found on this server." in
        done false (write c (failing ResponseType.auth_fail error))
    | found account ↦
        let s = set_action (record (c.session) { account = account; user = arg }) action_user in
        done false (write (with_session c s) (plain ResponseType.user_done))
  ]
]

-- With the domain in the argument. An unknown domain is answered, and the search goes on.
unfoldable pub check_user_domain : Env → Bytes → EmailAddress → Bytes → Conn → Outcome
check_user_domain env arg address domain c = elim (env.local_domain domain) [
  | database_exception ↦ thrown other c
  | runtime_error ↦ thrown other c
  | found _ ↦ identify env arg address domain c
  | empty_query ↦
      let error = codes "domain [" ++ domain ++ codes "] was not found on this server." in
      identify env arg address domain (write c (failing ResponseType.auth_fail error))
]

unfoldable pub find_user : Env → Bytes → Conn → Outcome
find_user env arg c = elim (find_first_of b'@' arg) [
  | some at ↦ elim (EmailAddress.parse arg) [
    | throws _ ↦ thrown other c
    | ok address ↦ elim (get_domain address) [
      | throws _ ↦ thrown other c
      | ok domain ↦ check_user_domain env arg address domain c
    ]
  ]
  | none ↦
      let full = arg ++ b'@' ∷ env.domain in
      elim (EmailAddress.parse full) [
        | throws _ ↦ thrown other c
        | ok address ↦ elim (get_domain address) [
          | throws _ ↦ thrown other c
          | ok domain ↦ identify env full address domain c
        ]
      ]
]

unfoldable pub handle_user : Env → List Bytes → Conn → Outcome
handle_user env args c =
    if get_flag c.session flag_auth
    then thrown (order (codes "Client already authenticated.")) c
    else elim args [
      | [] ↦ thrown (syntax (codes "USER requires one argument")) c
      | arg ∷ _ ↦ find_user env arg c
    ]
