-- ===== src/Pop3/Handlers/Messages/Bounds.antt =====
-- The message number of `RETR` and `DELE` against the number of messages.
use fsmtp_v.Base.{
  ℕ, suc, true, false, List, [], ◌∷◌, ◌++◌, ◌≡◌, arith, ◌<◌, ◌≤◌, ◌^◌, length, get_elem?-none,
}
use fsmtp_v.Base.Text.{Bytes}
use fsmtp_v.Base.Numbers.{stol, long, decrement}
use fsmtp_v.Pop3.Conn.{flag_auth, get_flag, Conn, Outcome, thrown, syntax, undefined, done}
use fsmtp_v.Pop3.Handlers.{Env, needs_auth, or_syntax}
use fsmtp_v.Pop3.Handlers.Messages.{
  handle_retr, retr_index, send_retr, handle_dele, dele_index, add_grave, max_index,
}

-- What `DELE` does with the index `i`, once logged in.
abbrev pub DeleResult : ℕ → Conn → Outcome → Type 0
DeleResult i c (done stops c') =
    (i < length c.session.references)
    × (stops ≡ false)
    × (c'.session.graveyard ≡ c.session.graveyard ++ i ∷ [])
    × (c'.session.references ≡ c.session.references)
DeleResult i c (thrown e c') =
    (length c.session.references ≤ i) × (e ≡ syntax (max_index c)) × (c' ≡ c)
DeleResult i c undefined = ¬ Unit {0}

-- `DELE` of a logged-in client, with a number for the 64-bit index `i = v - 1`: if a message has that
-- index, one grave with it is added and nothing else changes in the mailbox; if none has, it is a
-- syntax error and nothing changes at all.
pub handle_dele-DeleResult :
    (arg : Bytes) (args : List Bytes) (v : ℕ) (c : Conn)
    → get_flag c.session flag_auth ≡ true
    → stol arg ≡ long v
    → DeleResult (decrement v) c (handle_dele (arg ∷ args) c)
unfolding handle_dele needs_auth dele_index or_syntax add_grave
handle_dele-DeleResult arg args v c a n = ground (arith, a, n)

-- The bound of `RETR` is off by one. The number one past the last message, in decimal notation or
-- with whatever else `stol` reads as it, is undefined behaviour for a logged-in client with fewer than
-- 2 ^ 63 messages; `DELE` refuses the same number.
pub retr-one_past :
    (env : Env) (arg : Bytes) (args : List Bytes) (c : Conn)
    → get_flag c.session flag_auth ≡ true
    → length c.session.references < 2 ^ 63
    → stol arg ≡ long (suc (length c.session.references))
    → (handle_retr env (arg ∷ args) c ≡ undefined)
      × (handle_dele (arg ∷ args) c ≡ thrown (syntax (max_index c)) c)
unfolding handle_retr handle_dele needs_auth retr_index dele_index or_syntax add_grave send_retr
retr-one_past env arg args c a small n =
    let index : decrement (suc (length c.session.references)) ≡ length c.session.references =
      omega (arith, small) in
    let out = get_elem?-none c.session.references (length c.session.references) (omega arith) in
    ground (arith, a, n, index, out)
