-- ===== src/Smtp/Relay/Run.antt =====
-- The invariant over a whole connection.
use fsmtp_v.Base.{ℕ, zero, suc, Bool, true, false, List, [], ◌∷◌, ◌≡◌, ◌⊎◌, inl, inr, refl, All}
use fsmtp_v.Base.Text.{Bytes}
use fsmtp_v.Smtp.Command.{ClientCommandType, ClientCommand}
use fsmtp_v.Smtp.Command
use fsmtp_v.Smtp.Session.{Session, new_session, has_bits}
use fsmtp_v.Smtp.Conn.{Conn, Outcome, Exn}
use fsmtp_v.Smtp.Handlers.{Env, handle_quit}
use fsmtp_v.Smtp.Server.{
  Next, continue, stop, broken, handle_type, handle_command, after, step, greet, serve, handler,
}
use fsmtp_v.Smtp.Relay.{IsOwn, Inv, ConnInv, OutcomeInv, wrote}
use fsmtp_v.Base.{get_elem?, some, ◌∙◌}
use fsmtp_v.Smtp.Relay.Login.{Heard, LoggedIn, logged_in, auth_verify-Accepts}
use fsmtp_v.Smtp.Relay.Auth.{handle_hello-Inv, handle_start_tls-Inv, handle_auth-Inv, handle_su-Inv}
use fsmtp_v.Smtp.Relay.Mail.{handle_mail_from-Inv}
use fsmtp_v.Smtp.Relay.Recipient.{handle_rcpt_to-Inv}
use fsmtp_v.Smtp.Relay.Delivery.{handle_data-Inv}

module _ (H : Heard) where
  handle_type-Inv :
      (t : ClientCommandType) (env : Env) (line : Bytes) (args : List Bytes) (c : Conn)
      → H env line
      → (Command.parse line).command_type ≡ t
      → (Command.parse line).arguments ≡ args
      → ConnInv (LoggedIn H) c
      → OutcomeInv (LoggedIn H) (handle_type t env args c)
  unfolding handle_type handle_quit
  handle_type-Inv ClientCommandType.help env line args c heard typed given v =
      wrote (LoggedIn H) c _ v
  handle_type-Inv ClientCommandType.quit env line args c heard typed given v =
      wrote (LoggedIn H) c _ v
  handle_type-Inv ClientCommandType.helo env line args c heard typed given v =
      handle_hello-Inv (LoggedIn H) _ args c v
  handle_type-Inv ClientCommandType.ehlo env line args c heard typed given v =
      handle_hello-Inv (LoggedIn H) _ args c v
  handle_type-Inv ClientCommandType.start_tls env line args c heard typed given v =
      handle_start_tls-Inv (LoggedIn H) env c v
  handle_type-Inv ClientCommandType.mail_from env line args c heard typed given v =
      handle_mail_from-Inv (LoggedIn H) env args c v
  handle_type-Inv ClientCommandType.rcpt_to env line args c heard typed given v =
      handle_rcpt_to-Inv (LoggedIn H) env args c v
  handle_type-Inv ClientCommandType.auth env line args c heard typed given v =
      handle_auth-Inv (LoggedIn H) env args c v
        λ mechanism credentials user pass rest account e decodes checked.
          logged_in env line mechanism credentials user pass rest heard typed (given ∙ e) decodes
            (auth_verify-Accepts env user pass account checked)
  handle_type-Inv ClientCommandType.data_ env line args c heard typed given v =
      handle_data-Inv (LoggedIn H) env c v
  handle_type-Inv ClientCommandType.su env line args c heard typed given v =
      handle_su-Inv (LoggedIn H) env c v
  handle_type-Inv ClientCommandType.fcapa env line args c heard typed given v =
      wrote (LoggedIn H) c _ v
  handle_type-Inv ClientCommandType.unknown env line args c heard typed given v = v

  abbrev pub NextInv : Next → Type 0
  NextInv (continue c) = ConnInv (LoggedIn H) c
  NextInv (stop c) = ConnInv (LoggedIn H) c
  NextInv broken = Unit

  after-Inv : (o : Outcome) → OutcomeInv (LoggedIn H) o → NextInv (after o)
  unfolding after
  after-Inv (Outcome.done true c) v = v
  after-Inv (Outcome.done false c) v = v
  after-Inv (Outcome.thrown (Exn.order what) c) v = wrote (LoggedIn H) c _ v
  after-Inv (Outcome.thrown (Exn.syntax what) c) v = wrote (LoggedIn H) c _ v
  after-Inv (Outcome.thrown (Exn.invalid what) c) v = wrote (LoggedIn H) c _ v
  after-Inv (Outcome.thrown Exn.database c) v = v
  after-Inv (Outcome.thrown Exn.fatal c) v = v
  after-Inv (Outcome.thrown Exn.runtime c) v = v
  after-Inv (Outcome.thrown Exn.other c) v = v
  after-Inv Outcome.undefined v = tt

  step-Inv :
      (env : Env) (raw : Bytes) (c : Conn)
      → H env raw
      → ConnInv (LoggedIn H) c
      → NextInv (step env raw c)
  unfolding step handle_command
  step-Inv env raw c heard v =
      let command = Command.parse raw in
      after-Inv _
        (handle_type-Inv command.command_type env raw command.arguments c heard refl refl v)

  Next-cases :
      (n : Next) → ((c : Conn) × (n ≡ continue c)) ⊎ ((c : Conn) × (n ≡ stop c)) ⊎ (n ≡ broken)
  Next-cases (continue c) = inl (c, refl)
  Next-cases (stop c) = inr (inl (c, refl))
  Next-cases broken = inr (inr refl)

  serve-Inv :
      (n : ℕ) (lines : List (Env × Bytes)) (c : Conn)
      → ((k : ℕ) (env : Env) (line : Bytes) → get_elem? lines k ≡ some (env, line) → H env line)
      → ConnInv (LoggedIn H) c
      → NextInv (serve n lines c)
  unfolding serve
  serve-Inv zero lines c heard v = v
  serve-Inv (suc n) [] c heard v = v
  serve-Inv (suc n) ((env, raw) ∷ lines) c heard v =
      let here = step-Inv env raw c (heard 0 env raw refl) v in
      elim (Next-cases (step env raw c)) [
        | inl (c', e) ↦ rw (serve, e) (serve-Inv n lines c' (λ k. heard (suc k)) (rw e at here))
        | inr (inl (c', e)) ↦ rw (serve, e) (rw e at here)
        | inr (inr e) ↦ rw (serve, e) tt
      ]

  greet-Inv : (using_ssl : Bool) → ConnInv (LoggedIn H) (greet using_ssl)
  unfolding greet new_session has_bits
  greet-Inv true = record {
    now = record { local = inl refl; authed = inl refl; known = inl refl; relayed = inl refl };
    stored = tt;
    transmitted = tt;
  }
  greet-Inv false = record {
    now = record { local = inl refl; authed = inl refl; known = inl refl; relayed = inl refl };
    stored = tt;
    transmitted = tt;
  }

  -- A session with a task to relay is that of a client whose line with AUTH was accepted for the
  -- account of the session, and its sender address is the address of that account.
  abbrev pub NoOpenRelay : Session → Type 0
  NoOpenRelay s = (s.relay_tasks ≡ []) ⊎ (IsOwn s × LoggedIn H s.sending_account)

  Inv-NoOpenRelay : (s : Session) → Inv (LoggedIn H) s → NoOpenRelay s
  Inv-NoOpenRelay s v = elim v.relayed [
    | inl e ↦ inl e
    | inr local ↦ elim v.local [
      | inl e ↦ absurd (cc)
      | inr own ↦ elim v.known [
        | inl e ↦ absurd (cc (own.authenticated))
        | inr known ↦ inr (own, known)
      ]
    ]
  ]

  Inv-All : (ss : List Session) → All (Inv (LoggedIn H)) ss → All NoOpenRelay ss
  Inv-All [] h = tt
  Inv-All (s ∷ ss) h = (Inv-NoOpenRelay s h.0, Inv-All ss h.1)

  abbrev pub ConnClosed : Next → Type 0
  ConnClosed (continue c) =
      NoOpenRelay c.session × All NoOpenRelay c.stored × All NoOpenRelay c.transmitted
  ConnClosed (stop c) =
      NoOpenRelay c.session × All NoOpenRelay c.stored × All NoOpenRelay c.transmitted
  ConnClosed broken = Unit

  closed : (n : Next) → NextInv n → ConnClosed n
  closed (continue c) v = (
    Inv-NoOpenRelay c.session v.now,
    Inv-All c.stored v.stored,
    Inv-All c.transmitted v.transmitted,
  )
  closed (stop c) v = (
    Inv-NoOpenRelay c.session v.now,
    Inv-All c.stored v.stored,
    Inv-All c.transmitted v.transmitted,
  )
  closed broken v = tt

-- The lines of a connection.
abbrev pub Sent : List (Env × Bytes) → Heard
Sent lines env line = (k : ℕ) × (get_elem? lines k ≡ some (env, line))

-- The server is no open relay. Whatever lines a client sends, and whatever the databases, the
-- validators and the socket answer: unless the connection runs into undefined behaviour, its
-- session at the end and each session handed to a worker, as it was then, has no task to relay, or
-- its client has sent a line with AUTH whose password was verified, when the line was handled,
-- against the stored one of the session's account, and its sender address is that of the account.
pub handler-NoOpenRelay :
    (using_ssl : Bool) (lines : List (Env × Bytes))
    → ConnClosed (Sent lines) (handler using_ssl lines)
unfolding handler
handler-NoOpenRelay using_ssl lines = closed (Sent lines) _ (
    serve-Inv (Sent lines) 60 lines (greet using_ssl) (λ k env line e. (k, e))
      (greet-Inv (Sent lines) using_ssl))
