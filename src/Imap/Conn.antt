-- ===== src/Imap/Conn.antt =====
-- lib/imap/IMAPServerSession.src.{h,cc}, and what a handler of the IMAP server gets from outside. The
-- flags and actions are non-negative.
use fsmtp_v.Base.{ℕ, Bool, List, [], ◌∷◌, ◌++◌, Option, bit_or, ◌-◌, ◌^◌, bit_and}
use fsmtp_v.Base.Text.{Bytes}
use fsmtp_v.Models.Account.{
  AccountShortcut, Query, found, empty_query, database_exception, runtime_error,
}
use fsmtp_v.Models.EmailAddress.{Attempt, ok, throws}
use fsmtp_v.Smtp.Session.{no_account, has_bits}
use fsmtp_v.Imap.Response.{Mailbox, MailboxStatus}

-- `ServerSessionState`.
pub data State : Type 0 where
  no_auth auth sel : State

-- `_IMAP_FLAG_LOGGED_IN`.
abbrev pub flag_logged_in : ℕ
flag_logged_in = 1

pub record Session : Type 0 where
  pub account : AccountShortcut
  pub state : State
  pub selected_mailbox : Bytes
  pub flags : ℕ
  pub actions : ℕ

unfoldable pub new_session : Session
new_session = record {
  account = no_account;
  state = no_auth;
  selected_mailbox = [];
  flags = 0;
  actions = 0;
}

abbrev pub get_flag : Session → ℕ → Bool
get_flag s mask = has_bits s.flags mask

abbrev pub set_flag : Session → ℕ → Session
set_flag s mask = record s { flags = bit_or s.flags mask }

-- `flags &= ~mask`, on 64 bits.
abbrev pub clear_flag : Session → ℕ → Session
clear_flag s mask = record s { flags = bit_and s.flags (2 ^ 64 - 1 - mask) }

abbrev pub get_action : Session → ℕ → Bool
get_action s mask = has_bits s.actions mask

abbrev pub set_action : Session → ℕ → Session
set_action s mask = record s { actions = bit_or s.actions mask }

-- The configuration, the databases, the password hash, the socket, and the memory that
-- `buildSelectInformation` does not write.
pub record Env : Type 0 where
  pub domain : Bytes
  pub local_domain : Bytes → Query (Unit {0})
  pub find_account : Bytes → Bytes → Query AccountShortcut
  pub password_of : Bytes → AccountShortcut → Query Bytes
  pub password_verify : Bytes → Bytes → Bool
  -- `gatherAll`; the flag asks for the subscribed ones only
  pub mailboxes_of : AccountShortcut → Bool → Query (List Mailbox)
  pub status_of : AccountShortcut → Bytes → Query MailboxStatus
  -- `upgrade` from a value of `s_UseSSL` to the next, unless it throws
  pub upgrade : Bool → Option Bool
  pub uid_next : Bytes

pub record Conn : Type 0 where
  pub session : Session
  pub use_ssl : Bool
  pub written : List Bytes

-- How a handler ends. `other` is every exception that the server does not catch.
pub data Exn : Type 0 where
  bad no : Bytes → Exn
  database other : Exn

pub data Outcome : Type 0 where
  done : Conn → Outcome
  thrown : Exn → Conn → Outcome

-- A response that is built and sent.
unfoldable pub send : Conn → Attempt Bytes → Outcome
send c (ok text) = done (record c { written = c.written ++ text ∷ [] })
send c (throws e) = thrown other c

-- A query whose `EmptyQuery` is answered with NO.
unfoldable pub or_no {ℓ} : {A : Type ℓ} → Bytes → Query A → Conn → (A → Outcome) → Outcome
or_no what (found a) c next = next a
or_no what empty_query c next = thrown (no what) c
or_no what database_exception c next = thrown database c
or_no what runtime_error c next = thrown other c

-- A query under no `try`.
unfoldable pub or_throw {ℓ} : {A : Type ℓ} → Query A → Conn → (A → Outcome) → Outcome
or_throw (found a) c next = next a
or_throw empty_query c next = thrown other c
or_throw database_exception c next = thrown database c
or_throw runtime_error c next = thrown other c
