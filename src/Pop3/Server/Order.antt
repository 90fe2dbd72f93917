-- ===== src/Pop3/Server/Order.antt =====
-- What a POP3 client may do before it has logged in.
use fsmtp_v.Base.{Bool, true, false, List, ◌≡◌, refl}
use fsmtp_v.Base.Text.{Bytes, codes}
use fsmtp_v.Pop3.Command.{CommandType}
use fsmtp_v.Pop3.Conn.{flag_auth, get_flag, Conn, Outcome, thrown, order}
use fsmtp_v.Pop3.Handlers.{Env, needs_auth, handle_stat, handle_uidl, handle_list}
use fsmtp_v.Pop3.Handlers.Messages.{handle_top, handle_retr, handle_dele}
use fsmtp_v.Pop3.Server.{handle_type}

-- The commands that name or list messages.
abbrev pub reads_mailbox : CommandType → Bool
reads_mailbox CommandType.stat = true
reads_mailbox CommandType.uidl = true
reads_mailbox CommandType.list = true
reads_mailbox CommandType.retr = true
reads_mailbox CommandType.dele = true
reads_mailbox CommandType.top = true
reads_mailbox _ = false

refused :
    (c : Conn) (o : Outcome)
    → get_flag c.session flag_auth ≡ false
    → needs_auth c o ≡ thrown (order (codes "USER/PASS First.")) c
unfolding needs_auth
refused c o h = rw (h, needs_auth) refl

-- Before the login every command that names or lists messages is an order error, whatever its
-- arguments are, and changes nothing.
pub handle_type-order :
    (t : CommandType) (env : Env) (args : List Bytes) (c : Conn)
    → get_flag c.session flag_auth ≡ false
    → reads_mailbox t ≡ true
    → handle_type t env args c ≡ thrown (order (codes "USER/PASS First.")) c
unfolding handle_type handle_stat handle_uidl handle_list handle_top handle_retr handle_dele
handle_type-order CommandType.stat env args c h t = refused c _ h
handle_type-order CommandType.uidl env args c h t = refused c _ h
handle_type-order CommandType.list env args c h t = refused c _ h
handle_type-order CommandType.retr env args c h t = refused c _ h
handle_type-order CommandType.dele env args c h t = refused c _ h
handle_type-order CommandType.top env args c h t = refused c _ h
handle_type-order _ env args c h t = absurd cc
