-- ===== src/Imap/Server.antt =====
-- lib/imap/IMAPServer.src.cc: the capabilities of the constructor, the switch over the commands, and
-- the loop of `acceptorCallback` with its `catch` clauses.
pub mod Bypass
pub mod Verified
use fsmtp_v.Base.{Bool, true, false, List, [], ◌∷◌, ◌++◌, Option, none, some, if◌then◌else◌}
use fsmtp_v.Base.Text.{Bytes, codes}
use fsmtp_v.Models.EmailAddress.{Attempt, ok, throws}
use fsmtp_v.Imap.Command.{
  CommandType, Command, Read, command, bad, uncaught, undefined, out_of_fuel,
}
use fsmtp_v.Imap.Command
use fsmtp_v.Imap.Response.{
  Capability, build_capabilities, build_completed, build_greeting, build_bad, build_no,
}
use fsmtp_v.Imap.Conn.{new_session, Env, Conn, no, database, other, Outcome, done, thrown, send}
use fsmtp_v.Imap.Conn
use fsmtp_v.Imap.Handlers.{login, list, lsub, select}

-- `s_SecureCapabilities` and `s_PlainCapabilities`.
abbrev pub secure_capabilities : List Capability
secure_capabilities = (codes "IMAP4rev1", none) ∷ (codes "LOGIN", none) ∷ []

abbrev pub plain_capabilities : List Capability
plain_capabilities =
    (codes "IMAP4rev1", none) ∷ (codes "STARTTLS", none) ∷ (codes "LOGINDISABLED", none) ∷ []

unfoldable pub handle_capability : Command → Conn → Outcome
handle_capability cmd c =
    send c
      (build_capabilities cmd.index (if c.use_ssl then secure_capabilities else plain_capabilities))

-- The response, and then the upgrade.
unfoldable pub upgrade : Env → Outcome → Outcome
upgrade env (thrown e c) = thrown e c
upgrade env (done c) = elim (env.upgrade c.use_ssl) [
  | none ↦ thrown other c
  | some use_ssl ↦ done (record c { use_ssl = use_ssl })
]

unfoldable pub handle_starttls : Env → Command → Conn → Outcome
unfolding upgrade
handle_starttls env cmd c = upgrade env (send c (build_completed cmd.index CommandType.starttls))

-- What a round of the loop comes to: another round, the end of the connection, or an exception that
-- leaves `acceptorCallback`.
pub data Next : Type 0 where
  continue stop escaped : Conn → Next
  broken : Next

unfoldable pub answer : Conn → Attempt Bytes → Next
answer c (ok text) = continue (record c { written = c.written ++ text ∷ [] })
answer c (throws e) = escaped c

unfoldable pub after : Bytes → Outcome → Next
unfolding answer
after index (done c) = continue c
after index (thrown (Conn.bad what) c) = answer c (build_bad index what)
after index (thrown (no what) c) = answer c (build_no index what)
after index (thrown database c) = stop c
after index (thrown other c) = escaped c

-- The switch; `LOGOUT` jumps to the end.
unfoldable pub handle_type : CommandType → Env → Command → Conn → Next
unfolding after handle_capability handle_starttls
handle_type CommandType.uid env cmd c = after cmd.index (select env cmd c)
handle_type CommandType.select env cmd c = after cmd.index (select env cmd c)
handle_type CommandType.lsub env cmd c = after cmd.index (lsub env cmd c)
handle_type CommandType.list env cmd c = after cmd.index (list env cmd c)
handle_type CommandType.starttls env cmd c = after cmd.index (handle_starttls env cmd c)
handle_type CommandType.capability env cmd c = after cmd.index (handle_capability cmd c)
handle_type CommandType.login env cmd c = after cmd.index (login env cmd c)
handle_type CommandType.logout env cmd c = stop c
handle_type CommandType.noop env cmd c =
    after cmd.index (send c (build_completed cmd.index CommandType.noop))
handle_type _ env cmd c =
    after cmd.index (thrown (Conn.bad (codes "Command not implemented, fuck !")) c)

unfoldable pub handle_read : Env → Read → Conn → Next
unfolding handle_type answer
handle_read env (command cmd) c = handle_type cmd.command_type env cmd c
handle_read env (bad index what) c = answer c (build_bad index what)
handle_read env uncaught c = escaped c
handle_read env undefined c = broken
handle_read env out_of_fuel c = broken

unfoldable pub step : Env → Bytes → Conn → Next
unfolding handle_read
step env raw c = handle_read env (Command.parse raw) c

unfoldable pub go_on : Next → (Conn → Next) → Next
go_on (continue c) round = round c
go_on (stop c) round = stop c
go_on (escaped c) round = escaped c
go_on broken round = broken

-- The loop over the lines of the client, each with what its handler gets from outside. Where they
-- end, the read throws a `SocketReadException` or a `length_error`.
unfoldable pub serve : List (Env × Bytes) → Conn → Next
unfolding step go_on
serve [] c = stop c
serve ((env, raw) ∷ lines) c = go_on (step env raw c) (serve lines)

-- The session from the greeting on.
unfoldable pub handler : Bool → Bytes → List (Env × Bytes) → Next
unfolding serve answer
handler use_ssl node_name lines =
    go_on
      (answer (record { session = new_session; use_ssl = use_ssl; written = [] })
        (build_greeting node_name))
      (serve lines)
