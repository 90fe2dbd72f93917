-- ===== src/Pop3/Conn.antt =====
-- lib/pop3/P3ServerSession.src.{h,cc} and the responses of lib/pop3/P3Response.src.h: what the
-- server keeps of one connection, and how a handler ends.
use fsmtp_v.Base.{ℕ, Bool, true, false, List, [], ◌∷◌, ◌++◌, bit_or}
use fsmtp_v.Base.Text.{Bytes}
use fsmtp_v.Models.Account.{AccountShortcut}
use fsmtp_v.Smtp.Session.{has_bits}

-- A stored message: its `CassUuid`, its size in octets, and its bucket.
pub record Reference : Type 0 where
  pub uuid : ℕ
  pub size : ℕ
  pub bucket : ℕ

-- `_P3_SERVER_SESS_ACTION_USER`, `_P3_SERVER_SESS_ACTION_PASS` and `_P3_SERVER_SESS_FLAG_AUTH`.
abbrev pub action_user : ℕ
action_user = 1

abbrev pub action_pass : ℕ
action_pass = 2

abbrev pub flag_auth : ℕ
flag_auth = 1

pub record Session : Type 0 where
  pub user : Bytes
  pub pass : Bytes
  pub account : AccountShortcut
  pub references : List Reference
  pub graveyard : List ℕ
  pub flags : ℕ
  pub actions : ℕ

unfoldable pub new_session : Session
new_session = record {
  user = [];
  pass = [];
  account = record { bucket = 0; domain = []; username = []; uuid = 0 };
  references = [];
  graveyard = [];
  flags = 0;
  actions = 0;
}

abbrev pub get_flag : Session → ℕ → Bool
get_flag s mask = has_bits s.flags mask

abbrev pub set_flag : Session → ℕ → Session
set_flag s mask = record s { flags = bit_or s.flags mask }

abbrev pub get_action : Session → ℕ → Bool
get_action s mask = has_bits s.actions mask

abbrev pub set_action : Session → ℕ → Session
set_action s mask = record s { actions = bit_or s.actions mask }

pub data ResponseType : Type 0 where
  greeting capa stls_start command_invalid user_done auth_success auth_fail : ResponseType
  syntax_error quit stat uidl list retr dele_success order_error top rset : ResponseType
  implementation : ResponseType

-- The list of a response: none, the capabilities, or numbered elements.
pub data Listing : Type 0 where
  no_list : Listing
  capability_list : List Bytes → Listing
  element_list : List (ℕ × Bytes) → Listing

-- What is written to the socket: a response, with its message, its list and its pointer argument, or
-- a text as it is.
pub data Written : Type 0 where
  response : Bool → ResponseType → Bytes → Listing → Bytes → Written
  text : Bytes → Written

pub record Conn : Type 0 where
  pub session : Session
  pub using_ssl : Bool
  pub written : List Written

pub data Exn : Type 0 where
  order syntax invalid : Bytes → Exn
  fatal other : Exn

-- `done true` ends the connection. `undefined` is undefined behaviour of the C++ code, here a read
-- behind the end of the references.
pub data Outcome : Type 0 where
  done : Bool → Conn → Outcome
  thrown : Exn → Conn → Outcome
  undefined : Outcome

abbrev pub write : Conn → Written → Conn
write c w = record c { written = c.written ++ w ∷ [] }

abbrev pub with_session : Conn → Session → Conn
with_session c s = record c { session = s }

abbrev pub plain : ResponseType → Written
plain t = response true t [] no_list []

abbrev pub failing : ResponseType → Bytes → Written
failing t subject = response false t [] no_list subject
