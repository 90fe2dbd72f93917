-- ===== src/Smtp/Conn.antt =====
-- What a handler of lib/smtp/server/SMTPServer.src.cc works on: the connection's session, whether
-- the socket uses SSL, the responses written and the sessions pushed to the workers, and how the
-- handler ends. Writes to the socket are taken to succeed.
use fsmtp_v.Base.{Bool, List, [], ◌∷◌, ◌++◌}
use fsmtp_v.Base.Text.{Bytes}
use fsmtp_v.Smtp.Session.{Session}
use fsmtp_v.Smtp.Reply.{ResponseType, Reply, no_services}

pub record Conn : Type 0 where
  pub session : Session
  pub using_ssl : Bool
  pub written : List Reply
  -- the sessions handed to `DatabaseWorker` and `TransmissionWorker`
  pub stored : List Session
  pub transmitted : List Session

-- The exceptions that `startHandler` tells apart.
pub data Exn : Type 0 where
  order syntax invalid : Bytes → Exn
  fatal runtime database other : Exn

-- `done true` ends the connection. `undefined` is undefined behaviour of the C++ code.
pub data Outcome : Type 0 where
  done : Bool → Conn → Outcome
  thrown : Exn → Conn → Outcome
  undefined : Outcome

abbrev pub write : Conn → Reply → Conn
write c r = record c { written = c.written ++ r ∷ [] }

-- `ServerResponse(type)`, and the form with a text or a pointer argument.
abbrev pub plain : ResponseType → Reply
plain t = record { response = t; message = []; subject = []; services = no_services }

abbrev pub about : ResponseType → Bytes → Reply
about t subject = record { response = t; message = []; subject = subject; services = no_services }

abbrev pub saying : ResponseType → Bytes → Reply
saying t message = record { response = t; message = message; subject = []; services = no_services }

abbrev pub with_session : Conn → Session → Conn
with_session c s = record c { session = s }
