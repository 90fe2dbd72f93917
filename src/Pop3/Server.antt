-- ===== src/Pop3/Server.antt =====
-- lib/pop3/P3Server.src.cc: the switch of `handleCommand`, the loop of `startHandler`, and the
-- deletions when the connection has ended.
pub mod Safety
pub mod Order
use fsmtp_v.Base.{
  ℕ, Bool, true, false, List, [], ◌∷◌, ◌++◌, Option, none, some, if◌then◌else◌, get_elem?,
}
use fsmtp_v.Base.Text.{Bytes, codes}
use fsmtp_v.Pop3.Command.{CommandType, Command}
use fsmtp_v.Pop3.Command
use fsmtp_v.Pop3.Conn.{
  Reference, new_session, ResponseType, no_list, response, Conn, order, syntax, invalid, fatal,
  other, Outcome, done, thrown, undefined, write, plain, failing,
}
use fsmtp_v.Pop3.Handlers.{
  Env, handle_stls, handle_quit, handle_capa, handle_stat, handle_uidl, handle_list, handle_rset,
}
use fsmtp_v.Pop3.Handlers.Login.{handle_user, handle_pass}
use fsmtp_v.Pop3.Handlers.Messages.{handle_top, handle_retr, handle_dele}

unfoldable pub handle_type : CommandType → Env → List Bytes → Conn → Outcome
handle_type CommandType.implementation env args c =
    done false (write c (plain ResponseType.implementation))
handle_type CommandType.top env args c = handle_top env args c
handle_type CommandType.stls env args c = handle_stls env c
handle_type CommandType.quit env args c = handle_quit c
handle_type CommandType.pass env args c = handle_pass env args c
handle_type CommandType.user env args c = handle_user env args c
handle_type CommandType.capa env args c = handle_capa c
handle_type CommandType.stat env args c = handle_stat c
handle_type CommandType.uidl env args c = handle_uidl env c
handle_type CommandType.list env args c = handle_list c
handle_type CommandType.retr env args c = handle_retr env args c
handle_type CommandType.rset env args c = handle_rset c
handle_type CommandType.dele env args c = handle_dele args c
handle_type CommandType.unknown env args c = thrown (invalid (codes "Command not found")) c

unfoldable pub handle_command : Env → Command → Conn → Outcome
handle_command env command c = handle_type command.command_type env command.args c

pub data Next : Type 0 where
  continue stop : Conn → Next
  broken : Next

-- The `catch` clauses of the loop: three exceptions are answered, every other ends the connection.
unfoldable pub after : Outcome → Next
after (done true c) = stop c
after (done false c) = continue c
after (thrown (order what) c) = continue (write c (failing ResponseType.order_error what))
after (thrown (syntax what) c) = continue (write c (failing ResponseType.syntax_error what))
after (thrown (invalid what) c) = continue (write c (failing ResponseType.command_invalid what))
after (thrown fatal c) = stop c
after (thrown other c) = stop c
after undefined = broken

unfoldable pub step : Env → Bytes → Conn → Next
step env raw c = after (handle_command env (Command.parse raw) c)

-- The greeting, with the client's name.
unfoldable pub greet : Bool → Bytes → Conn
greet using_ssl client_string = record {
  session = new_session;
  using_ssl = using_ssl;
  written = response true ResponseType.greeting [] no_list client_string ∷ [];
}

-- The next round, unless the connection has ended.
unfoldable pub go_on : Next → (Conn → Next) → Next
go_on (continue c) round = round c
go_on (stop c) round = stop c
go_on broken round = broken

-- The loop over the lines of the client, each with what its handler gets from outside. Where the
-- lines end, the read throws.
unfoldable pub serve : List (Env × Bytes) → Conn → Next
serve [] c = stop c
serve ((env, raw) ∷ lines) c = go_on (step env raw c) (serve lines)

-- The two deletions of a message, `EmailShortcut::deleteOne` and `RawEmail::deleteOne`.
pub data Deletion : Type 0 where
  shortcut raw : Reference → Deletion

-- The deletions for a graveyard, up to the first that throws; `none` is a read behind the end of the
-- references.
unfoldable pub deletions : (Deletion → Bool) → List Reference → List ℕ → Option (List Deletion)
deletions throws refs [] = some []
deletions throws refs (i ∷ graveyard) =
    let rest = deletions throws refs graveyard in
    elim (get_elem? refs i) [
      | none ↦ none
      | some r ↦
          if throws (shortcut r)
          then some []
          else if throws (raw r)
          then some (shortcut r ∷ [])
          else elim rest [ none ↦ none | some more ↦ some (shortcut r ∷ raw r ∷ more) ]
    ]

-- How a connection ends: with the deletions that were made, or in undefined behaviour.
pub data Closed : Type 0 where
  closed : Conn → List Deletion → Closed
  undefined_read : Closed

unfoldable pub close : Conn → Option (List Deletion) → Closed
close c none = undefined_read
close c (some made) = closed c made

unfoldable pub finish : (Deletion → Bool) → Conn → Closed
finish throws c = close c (deletions throws c.session.references c.session.graveyard)

unfoldable pub end_of : (Deletion → Bool) → Next → Closed
end_of throws (continue c) = finish throws c
end_of throws (stop c) = finish throws c
end_of throws broken = undefined_read

unfoldable pub handler : (Deletion → Bool) → Bool → Bytes → List (Env × Bytes) → Closed
handler throws using_ssl client_string lines =
    end_of throws (serve lines (greet using_ssl client_string))
