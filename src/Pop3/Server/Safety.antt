-- ===== src/Pop3/Server/Safety.antt =====
-- What holds of a POP3 session over a whole connection: the invariant, and how it is used.
pub mod Login
pub mod Messages
pub mod Deletions
pub mod Run
use fsmtp_v.Base.{
  ℕ, Bool, true, false, not, List, [], ◌∷◌, ◌++◌, Option, none, some, ◌≡◌, ◌⊎◌, inl, inr, refl,
  arith, ◌<◌, ltb, leb, if◌then◌else◌, length, bit_or, get_elem?, get_elem?-some, All, All-append,
  Bool-cases, Option-cases,
}
use fsmtp_v.Smtp.Session.{has_bits}
use fsmtp_v.Smtp.Session.Laws.{has_bits-set}
use fsmtp_v.Base.Text.{Bytes, find_first_of}
use fsmtp_v.Base.Numbers.{Stol, stol, long, invalid_argument, out_of_range, decrement}
use fsmtp_v.Models.Account.{
  AccountShortcut, Query, found, empty_query, database_exception, runtime_error,
}
use fsmtp_v.Models.EmailAddress
use fsmtp_v.Models.EmailAddress.{EmailAddress, ok, throws, get_domain, get_username}
use fsmtp_v.Pop3.Command.{CommandType, Command}
use fsmtp_v.Pop3.Command
use fsmtp_v.Pop3.Conn.{
  Reference, Session, new_session, ResponseType, flag_auth, get_flag, set_flag, set_action,
  action_pass, get_action, action_user, Conn, Exn, Outcome, Written, write, with_session,
}
use fsmtp_v.Pop3.Conn
use fsmtp_v.Pop3.Handlers.{
  Env, handle_stls, handle_quit, handle_capa, handle_stat, handle_uidl, handle_list, handle_rset,
  needs_auth, or_stop, or_syntax,
}
use fsmtp_v.Pop3.Handlers.Login.{
  handle_user, handle_pass, find_user, check_user_domain, identify, check_pass, log_in,
}
use fsmtp_v.Pop3.Handlers.Messages.{
  handle_top, handle_retr, handle_dele, top_index, send_top, send_text, retr_index, send_retr,
  dele_index, add_grave,
}
use fsmtp_v.Pop3.Server.{
  handle_type, handle_command, Next, continue, stop, broken, after, step, greet, serve, Deletion,
  deletions, Closed, closed, undefined_read, finish, handler,
}

-- Which lines a connection has heard, each with what its handler got from outside.
abbrev pub Heard : Type 1
Heard = Env → Bytes → Type 0

-- The session's login: a line with PASS has been heard, and the databases that its handler got have
-- for the account a password that the one of the line was verified against.
pub record IsVerified (H : Heard) (s : Session) : Type 0 where
  pub authenticated : get_flag s flag_auth ≡ true
  pub env : Env
  pub line : Bytes
  pub heard : H env line
  pub is_pass : (Command.parse line).command_type ≡ CommandType.pass
  pub password : Bytes
  pub rest : List Bytes
  pub given : (Command.parse line).args ≡ password ∷ rest
  pub hash : Bytes
  pub stored : env.password_of s.account ≡ found hash
  pub verified : env.password_verify password hash ≡ true

-- Nobody has logged in, and the session knows no messages; or the login is verified, and each grave
-- is one of the messages.
pub data Inv (H : Heard) (s : Session) : Type 0 where
  before_login : get_flag s flag_auth ≡ false → s.references ≡ [] → s.graveyard ≡ [] → Inv H s
  after_login : IsVerified H s → All (λ i. i < length s.references) s.graveyard → Inv H s

abbrev pub OutcomeInv : Heard → Outcome → Type 0
OutcomeInv H (Outcome.done b c) = Inv H c.session
OutcomeInv H (Outcome.thrown e c) = Inv H c.session
OutcomeInv H Outcome.undefined = Unit

-- The session is the same, whatever has been written.
abbrev pub Same : Session → Outcome → Type 0
Same s (Outcome.done b c) = c.session ≡ s
Same s (Outcome.thrown e c) = c.session ≡ s
Same s Outcome.undefined = Unit

-- Commands that change no session.
pub needs_auth-Same : (c : Conn) (o : Outcome) → Same c.session o → Same c.session (needs_auth c o)
unfolding needs_auth
needs_auth-Same c o h = ground arith

pub or_stop-all {ℓ} :
    {A : Type ℓ} (P : Outcome → Type 0) (q : Query A) (c : Conn) (next : A → Outcome)
    → P (Outcome.thrown Exn.other c)
    → ((a : A) → P (next a))
    → P (or_stop q c next)
unfolding or_stop
or_stop-all P (found a) c next e h = h a
or_stop-all P empty_query c next e h = e
or_stop-all P database_exception c next e h = e
or_stop-all P runtime_error c next e h = e

pub or_syntax-all :
    (P : Outcome → Type 0) (what : Bytes) (n : Stol) (c : Conn) (next : ℕ → Outcome)
    → ((e : Exn) → P (Outcome.thrown e c))
    → ((v : ℕ) → P (next v))
    → P (or_syntax what n c next)
unfolding or_syntax
or_syntax-all P what (long v) c next e h = h v
or_syntax-all P what invalid_argument c next e h = e _
or_syntax-all P what out_of_range c next e h = e _

module _ (H : Heard) where
  -- Another graveyard.
  pub with_graves :
      (s : Session) (graves : List ℕ)
      → IsVerified H s
      → IsVerified H (record s { graveyard = graves })
  with_graves s graves own = record {
    authenticated = own.authenticated;
    env = own.env;
    line = own.line;
    heard = own.heard;
    is_pass = own.is_pass;
    password = own.password;
    rest = own.rest;
    given = own.given;
    hash = own.hash;
    stored = own.stored;
    verified = own.verified;
  }

  pub Same-Inv : (s : Session) (o : Outcome) → Same s o → Inv H s → OutcomeInv H o
  Same-Inv s (Outcome.done b c) e v = rw e v
  Same-Inv s (Outcome.thrown e' c) e v = rw e v
  Same-Inv s Outcome.undefined e v = tt

  pub needs_auth-Inv :
      (c : Conn) (o : Outcome)
      → Inv H c.session
      → (get_flag c.session flag_auth ≡ true → OutcomeInv H o)
      → OutcomeInv H (needs_auth c o)
  unfolding needs_auth
  needs_auth-Inv c o v h = elim (Bool-cases (get_flag c.session flag_auth)) [
    | inl a ↦ rw (a, needs_auth) (h a)
    | inr a ↦ rw (a, needs_auth) v
  ]
