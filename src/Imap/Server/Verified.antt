-- ===== src/Imap/Server/Verified.antt =====
-- The flag of a login is set for a verified password only.
use fsmtp_v.Base.{
  Bool, List, [], ◌∷◌, Option-cases, inl, inr, refl, ℕ, suc, some, get_elem?, ◌≡◌, arith,
}
use fsmtp_v.Base.Text.{Bytes}
use fsmtp_v.Smtp.Session.{has_bits}
use fsmtp_v.Models.EmailAddress.{Attempt, ok, throws}
use fsmtp_v.Imap.Command.{
  CommandType, Command, Read, command, bad, uncaught, undefined, out_of_fuel,
}
use fsmtp_v.Imap.Command
use fsmtp_v.Imap.Response.{build_greeting, build_bad, build_no}
use fsmtp_v.Imap.Conn.{
  flag_logged_in, get_flag, new_session, Env, Conn, Exn, no, database, other, Outcome, done, thrown,
  send, or_no, or_throw,
}
use fsmtp_v.Imap.Conn
use fsmtp_v.Imap.Handlers.{login, list, lsub, select}
use fsmtp_v.Imap.Server.{
  handle_capability, upgrade, handle_starttls, Next, continue, stop, escaped, broken, answer, after,
  handle_type, handle_read, step, go_on, serve, handler,
}
use fsmtp_v.Imap.Handlers.Leaves.{
  Out, Leaves, ends, raises, Verifies, send-Leaves, login-Leaves, list-Leaves, lsub-Leaves,
  select-Leaves,
}

module _ (L : Type 0) where
  abbrev pub Stays : Next → Type 0
  Stays (continue c) = Out L c
  Stays (stop c) = Out L c
  Stays (escaped c) = Out L c
  Stays broken = Unit

  upgrade-Leaves : (env : Env) (o : Outcome) → Leaves L o → Leaves L (upgrade env o)
  unfolding upgrade
  upgrade-Leaves env (thrown e c) (raises h) = raises h
  upgrade-Leaves env (done c) (ends h) = elim (Option-cases (env.upgrade c.use_ssl)) [
    | inl e ↦ rw (upgrade, e) (raises h)
    | inr (use_ssl, e) ↦ rw (upgrade, e) (ends h)
  ]

  answer-Stays : (c : Conn) (a : Attempt Bytes) → Out L c → Stays (answer c a)
  unfolding answer
  answer-Stays c (ok text) h = h
  answer-Stays c (throws e) h = h

  after-Stays : (index : Bytes) (o : Outcome) → Leaves L o → Stays (after index o)
  unfolding after
  after-Stays index (done c) (ends h) = h
  after-Stays index (thrown (Conn.bad what) c) (raises h) = answer-Stays c (build_bad index what) h
  after-Stays index (thrown (no what) c) (raises h) = answer-Stays c (build_no index what) h
  after-Stays index (thrown database c) (raises h) = h
  after-Stays index (thrown other c) (raises h) = h

  handle_type-Stays :
      (t : CommandType) (env : Env) (cmd : Command) (c : Conn)
      → (t ≡ CommandType.login → Verifies env cmd → L)
      → Out L c
      → Stays (handle_type t env cmd c)
  unfolding handle_type handle_capability handle_starttls
  handle_type-Stays CommandType.uid env cmd c r h =
      after-Stays cmd.index (select env cmd c) (select-Leaves L env cmd c h)
  handle_type-Stays CommandType.select env cmd c r h =
      after-Stays cmd.index (select env cmd c) (select-Leaves L env cmd c h)
  handle_type-Stays CommandType.lsub env cmd c r h =
      after-Stays cmd.index (lsub env cmd c) (lsub-Leaves L env cmd c h)
  handle_type-Stays CommandType.list env cmd c r h =
      after-Stays cmd.index (list env cmd c) (list-Leaves L env cmd c h)
  handle_type-Stays CommandType.starttls env cmd c r h =
      after-Stays cmd.index (handle_starttls env cmd c) (upgrade-Leaves env _ (send-Leaves L c _ h))
  handle_type-Stays CommandType.capability env cmd c r h =
      after-Stays cmd.index (handle_capability cmd c) (send-Leaves L c _ h)
  handle_type-Stays CommandType.login env cmd c r h =
      after-Stays cmd.index (login env cmd c) (login-Leaves L env cmd c (r refl) h)
  handle_type-Stays CommandType.logout env cmd c r h = h
  handle_type-Stays CommandType.noop env cmd c r h = after-Stays cmd.index _ (send-Leaves L c _ h)
  handle_type-Stays _ env cmd c r h = after-Stays cmd.index (thrown (Conn.bad _) c) (raises h)

  handle_read-Stays :
      (env : Env) (r : Read) (c : Conn)
      → ((cmd : Command)
          → r ≡ command cmd
          → cmd.command_type ≡ CommandType.login
          → Verifies env cmd
          → L)
      → Out L c
      → Stays (handle_read env r c)
  unfolding handle_read
  handle_read-Stays env (command cmd) c r h =
      handle_type-Stays cmd.command_type env cmd c (r cmd refl) h
  handle_read-Stays env (bad index what) c r h = answer-Stays c (build_bad index what) h
  handle_read-Stays env uncaught c r h = h
  handle_read-Stays env undefined c r h = tt
  handle_read-Stays env out_of_fuel c r h = tt

  go_on-Stays :
      (n : Next) (round : Conn → Next)
      → Stays n
      → ((c : Conn) → Out L c → Stays (round c))
      → Stays (go_on n round)
  unfolding go_on
  go_on-Stays (continue c) round h k = k c h
  go_on-Stays (stop c) round h k = h
  go_on-Stays (escaped c) round h k = h
  go_on-Stays broken round h k = tt

  serve-Stays :
      (lines : List (Env × Bytes)) (c : Conn)
      → ((k : ℕ) (env : Env) (raw : Bytes) (cmd : Command)
          → get_elem? lines k ≡ some (env, raw)
          → Command.parse raw ≡ command cmd
          → cmd.command_type ≡ CommandType.login
          → Verifies env cmd
          → L)
      → Out L c
      → Stays (serve lines c)
  unfolding serve step
  serve-Stays [] c reason h = h
  serve-Stays ((env, raw) ∷ lines) c reason h =
      go_on-Stays (step env raw c) (serve lines)
        (handle_read-Stays env (Command.parse raw) c (λ cmd. reason 0 env raw cmd refl) h)
        λ c' h'. serve-Stays lines c' (λ k. reason (suc k)) h'

-- A line with LOGIN has been sent whose user and password the databases accepted when it was handled.
pub data LoggedIn (lines : List (Env × Bytes)) : Type 0 where
  logged_in :
      (k : ℕ) (env : Env) (raw : Bytes) (cmd : Command)
      → get_elem? lines k ≡ some (env, raw)
      → Command.parse raw ≡ command cmd
      → cmd.command_type ≡ CommandType.login
      → Verifies env cmd
      → LoggedIn lines

-- Whatever lines a client sends and however its connection ends: where the flag of a login is set at
-- the end, a line with LOGIN has been sent whose user the databases of its handler knew, and whose
-- password was verified against the stored one of that user; unless the connection runs into
-- undefined behaviour.
pub handler-Stays :
    (use_ssl : Bool) (node_name : Bytes) (lines : List (Env × Bytes))
    → Stays (LoggedIn lines) (handler use_ssl node_name lines)
unfolding handler new_session has_bits
handler-Stays use_ssl node_name lines =
    let L = LoggedIn lines in
    let first : Conn = record { session = new_session; use_ssl = use_ssl; written = [] } in
    let out : Out L first = λ set. absurd (ground (arith, set)) in
    go_on-Stays L (answer first (build_greeting node_name)) (serve lines)
      (answer-Stays L first (build_greeting node_name) out) λ c h. serve-Stays L lines c logged_in h
