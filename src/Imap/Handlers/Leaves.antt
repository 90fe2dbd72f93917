-- ===== src/Imap/Handlers/Leaves.antt =====
-- Which handlers leave a session without a login as it is: all of them, but a login with the right
-- password.
use fsmtp_v.Base.{
  true, false, Bool-cases, List, Option, none, some, Option-cases, ◌≡◌, inl, inr, refl, arith, ◌-◌,
  ◌^◌,
}
use fsmtp_v.Base.Text.{Bytes}
use fsmtp_v.Smtp.Session.Laws.{has_bits-clear}
use fsmtp_v.Models.Account.{
  AccountShortcut, Query, found, empty_query, database_exception, runtime_error,
}
use fsmtp_v.Models.EmailAddress.{EmailAddress, Attempt, ok, throws, get_domain, get_username}
use fsmtp_v.Models.EmailAddress
use fsmtp_v.Imap.Parser.{Argument}
use fsmtp_v.Imap.Command.{CommandType, Command}
use fsmtp_v.Imap.Response.{Mailbox, build_completed, build_list}
use fsmtp_v.Imap.Conn.{
  flag_logged_in, get_flag, Env, Conn, Exn, Outcome, done, thrown, send, or_no, or_throw,
}
use fsmtp_v.Imap.Handlers.{
  first_two, first_one, text_of, two_texts, full_user, login_as, identify, check_password, login,
  ListQuery, all, layers, other_query, list, lsub, list_reply, fall_through, lsub_reply,
  list_query_from_string, select, select_argument, select_mailbox,
}

-- The databases have for the user, who is given with or without a domain, the stored password that the
-- one given was verified against.
pub data Accepts (env : Env) (user pass : Bytes) : Type 0 where
  accepts :
      (address : EmailAddress) (domain username : Bytes) (account : AccountShortcut) (hash : Bytes)
      → EmailAddress.parse (full_user env user) ≡ ok address
      → get_domain address ≡ ok domain
      → get_username address ≡ ok username
      → env.local_domain domain ≡ found tt
      → env.find_account domain username ≡ found account
      → env.password_of domain account ≡ found hash
      → env.password_verify pass hash ≡ true
      → Accepts env user pass

-- The first two arguments of a command are a user and a password that the databases accept.
pub data Verifies (env : Env) (cmd : Command) : Type 0 where
  verifies :
      (a b : Argument) (user pass : Bytes)
      → first_two cmd.args ≡ some (a, b)
      → text_of a ≡ some user
      → text_of b ≡ some pass
      → Accepts env user pass
      → Verifies env cmd

module _ (L : Type 0) where
  -- The flag of a login is set for the reason `L` only.
  abbrev pub Out : Conn → Type 0
  Out c = get_flag c.session flag_logged_in ≡ true → L

  pub data Leaves : Outcome → Type 0 where
    ends : {c : Conn} → Out c → Leaves (done c)
    raises : {e : Exn} {c : Conn} → Out c → Leaves (thrown e c)

  pub send-Leaves : (c : Conn) (a : Attempt Bytes) → Out c → Leaves (send c a)
  unfolding send
  send-Leaves c (ok text) h = ends h
  send-Leaves c (throws e) h = raises h

  or_no-Leaves {ℓ} :
      {A : Type ℓ} (what : Bytes) (q : Query A) (c : Conn) (next : A → Outcome)
      → Out c
      → ((a : A) → q ≡ found a → Leaves (next a))
      → Leaves (or_no what q c next)
  unfolding or_no
  or_no-Leaves what (found a) c next h k = k a refl
  or_no-Leaves what empty_query c next h k = raises h
  or_no-Leaves what database_exception c next h k = raises h
  or_no-Leaves what runtime_error c next h k = raises h

  or_throw-Leaves {ℓ} :
      {A : Type ℓ} (q : Query A) (c : Conn) (next : A → Outcome)
      → Out c
      → ((a : A) → Leaves (next a))
      → Leaves (or_throw q c next)
  unfolding or_throw
  or_throw-Leaves (found a) c next h k = k a
  or_throw-Leaves empty_query c next h k = raises h
  or_throw-Leaves database_exception c next h k = raises h
  or_throw-Leaves runtime_error c next h k = raises h

  two_texts-Leaves :
      (few : Bytes) (args : Option (Argument × Argument)) (c : Conn)
      (next : Bytes → Bytes → Outcome)
      → Out c
      → ((a b : Argument) (x y : Bytes)
          → args ≡ some (a, b)
          → text_of a ≡ some x
          → text_of b ≡ some y
          → Leaves (next x y))
      → Leaves (two_texts few args c next)
  unfolding two_texts
  two_texts-Leaves few none c next h k = raises h
  two_texts-Leaves few (some (a, b)) c next h k = elim (Option-cases (text_of a)) [
    | inl e ↦ rw (two_texts, e) (raises h)
    | inr (x, e) ↦ elim (Option-cases (text_of b)) [
      | inl e' ↦ rw (two_texts, e, e') (raises h)
      | inr (y, e') ↦ rw (two_texts, e, e') (k a b x y refl e e')
    ]
  ]

  check_password-Leaves :
      (env : Env) (index pass valid : Bytes) (c : Conn)
      → (env.password_verify pass valid ≡ true → L)
      → Leaves (check_password env index pass valid c)
  unfolding check_password
  check_password-Leaves env index pass valid c reason =
      elim (Bool-cases (env.password_verify pass valid)) [
        | inl e ↦ rw (check_password, e) (send-Leaves _ _ λ set. reason e)
        | inr e ↦
            rw (check_password, e)
              (raises λ set. absurd (
                ground (
                  arith,
                  set,
                  has_bits-clear c.session.flags (2 ^ 64 - 1 - flag_logged_in) flag_logged_in refl
                      λ d. ground (arith, d),
                )))
      ]

  identify-Leaves :
      (env : Env) (index pass domain username : Bytes) (c : Conn)
      → ((account : AccountShortcut) (hash : Bytes)
          → env.local_domain domain ≡ found tt
          → env.find_account domain username ≡ found account
          → env.password_of domain account ≡ found hash
          → env.password_verify pass hash ≡ true
          → L)
      → Out c
      → Leaves (identify env index pass domain username c)
  unfolding identify
  identify-Leaves env index pass domain username c reason h =
      or_no-Leaves _ (env.local_domain domain) c _ h λ _ d.
        or_no-Leaves _ (env.find_account domain username) c _ h λ account a.
          let known = record c { session = record (c.session) { account = account } } in
          or_no-Leaves _ (env.password_of domain account) known _ h λ valid p.
            check_password-Leaves env index pass valid known λ v. reason account valid d a p v

  login_as-Leaves :
      (env : Env) (index user pass : Bytes) (c : Conn)
      → (Accepts env user pass → L)
      → Out c
      → Leaves (login_as env index pass (EmailAddress.parse (full_user env user)) c)
  unfolding login_as
  login_as-Leaves env index user pass c reason h =
      elim (EmailAddress.Attempt-cases (EmailAddress.parse (full_user env user))) [
        | inl (what, p) ↦ rw (login_as, p) (raises h)
        | inr (address, p) ↦ elim (EmailAddress.Attempt-cases (get_domain address)) [
          | inl (what, e) ↦ rw (login_as, p, e) (raises h)
          | inr (domain, e) ↦ elim (EmailAddress.Attempt-cases (get_username address)) [
            | inl (what, u) ↦ rw (login_as, p, e, u) (raises h)
            | inr (username, u) ↦
                rw (login_as, p, e, u)
                  (identify-Leaves env index pass domain username c
                    (λ account hash d a s v.
                      reason (accepts address domain username account hash p e u d a s v))
                    h)
          ]
        ]
      ]

  pub login-Leaves :
      (env : Env) (cmd : Command) (c : Conn)
      → (Verifies env cmd → L)
      → Out c
      → Leaves (login env cmd c)
  unfolding login
  login-Leaves env cmd c reason h =
      two_texts-Leaves _ (first_two cmd.args) c _ h λ a b user pass given first second.
        login_as-Leaves env cmd.index user pass c
          (λ ok_pass. reason (verifies a b user pass given first second ok_pass)) h

  fall_through-Leaves : (o : Outcome) → Leaves o → Leaves (fall_through o)
  unfolding fall_through
  fall_through-Leaves (done c) (ends h) = raises h
  fall_through-Leaves (thrown e c) (raises h) = raises h

  list_reply-Leaves :
      (index : Bytes) (boxes : List Mailbox) (q : ListQuery) (c : Conn)
      → Out c
      → Leaves (list_reply index boxes q c)
  unfolding list_reply send
  list_reply-Leaves index boxes all c h = send-Leaves c (build_list CommandType.list index boxes) h
  list_reply-Leaves index boxes (layers depth) c h = raises h
  list_reply-Leaves index boxes other_query c h =
      fall_through-Leaves (send c (build_completed index CommandType.list))
        (send-Leaves c (build_completed index CommandType.list) h)

  pub list-Leaves : (env : Env) (cmd : Command) (c : Conn) → Out c → Leaves (list env cmd c)
  unfolding list
  list-Leaves env cmd c h = two_texts-Leaves _ (first_two cmd.args) c _ h λ a b x y _ _ _.
      or_throw-Leaves (env.mailboxes_of c.session.account false) c _ h
        λ boxes. list_reply-Leaves cmd.index boxes (list_query_from_string x y) c h

  lsub_reply-Leaves :
      (index : Bytes) (boxes : List Mailbox) (q : ListQuery) (c : Conn)
      → Out c
      → Leaves (lsub_reply index boxes q c)
  unfolding lsub_reply
  lsub_reply-Leaves index boxes all c h = send-Leaves c (build_list CommandType.lsub index boxes) h
  lsub_reply-Leaves index boxes _ c h = raises h

  pub lsub-Leaves : (env : Env) (cmd : Command) (c : Conn) → Out c → Leaves (lsub env cmd c)
  unfolding lsub
  lsub-Leaves env cmd c h = two_texts-Leaves _ (first_two cmd.args) c _ h λ a b x y _ _ _.
      or_throw-Leaves (env.mailboxes_of c.session.account true) c _ h
        λ boxes. lsub_reply-Leaves cmd.index boxes (list_query_from_string x y) c h

  select_argument-Leaves :
      (env : Env) (index : Bytes) (a : Option Argument) (c : Conn)
      → Out c
      → Leaves (select_argument env index a c)
  unfolding select_argument select_mailbox
  select_argument-Leaves env index none c h = raises h
  select_argument-Leaves env index (some a) c h = elim (Option-cases (text_of a)) [
    | inl e ↦ rw (select_argument, e) (raises h)
    | inr (name, e) ↦
        rw (select_argument, e)
          (or_no-Leaves _ (env.status_of c.session.account name) c _ h
            λ status _. send-Leaves _ _ h)
  ]

  pub select-Leaves : (env : Env) (cmd : Command) (c : Conn) → Out c → Leaves (select env cmd c)
  unfolding select
  select-Leaves env cmd c h = select_argument-Leaves env cmd.index (first_one cmd.args) c h
