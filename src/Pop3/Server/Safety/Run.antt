-- ===== src/Pop3/Server/Safety/Run.antt =====
-- The POP3 invariant over a whole connection, and what its end deletes.
use fsmtp_v.Base.{
  Bool, true, false, List, [], ◌∷◌, some, ◌≡◌, ◌⊎◌, inl, inr, refl, arith, All, Option-cases,
}
use fsmtp_v.Smtp.Session.{has_bits}
use fsmtp_v.Base.Text.{Bytes}
use fsmtp_v.Pop3.Command.{CommandType, Command}
use fsmtp_v.Pop3.Command
use fsmtp_v.Pop3.Conn.{new_session, Conn, Exn, Outcome}
use fsmtp_v.Pop3.Handlers.{
  Env, handle_stls, handle_quit, handle_capa, handle_stat, handle_uidl, handle_list, handle_rset,
}
use fsmtp_v.Pop3.Server.{
  handle_type, handle_command, Next, continue, stop, broken, after, step, greet, serve, Deletion,
  deletions, Closed, closed, undefined_read, finish, handler,
}
use fsmtp_v.Pop3.Server.Safety.{
  Heard, IsVerified, Inv, before_login, after_login, OutcomeInv, Same, Same-Inv, needs_auth-Same,
  with_graves,
}
use fsmtp_v.Base.{◌≢◌, ℕ, suc, get_elem?}
use fsmtp_v.Pop3.Server.{go_on, close, end_of}
use fsmtp_v.Pop3.Server.Safety.Deletions.{Marked, deletions-Marked, deletions-defined}
use fsmtp_v.Pop3.Server.Safety.Messages.{handle_top-Same, handle_retr-Same, handle_dele-Inv}
use fsmtp_v.Pop3.Server.Safety.Login.{handle_pass-Inv, handle_user-Inv}

handle_stls-Same : (env : Env) (c : Conn) → Same c.session (handle_stls env c)
unfolding handle_stls
handle_stls-Same env c = ground arith

module _ (H : Heard) where
  handle_rset-Inv : (c : Conn) → Inv H c.session → OutcomeInv H (handle_rset c)
  unfolding handle_rset
  handle_rset-Inv c (before_login a refs graves) = before_login a refs refl
  handle_rset-Inv c (after_login own graves) = after_login (with_graves H c.session [] own) tt

  handle_type-Inv :
      (t : CommandType) (env : Env) (line : Bytes) (args : List Bytes) (c : Conn)
      → H env line
      → (Command.parse line).command_type ≡ t
      → (Command.parse line).args ≡ args
      → Inv H c.session
      → OutcomeInv H (handle_type t env args c)
  unfolding handle_type handle_quit handle_capa handle_stat handle_uidl handle_list
  handle_type-Inv CommandType.capa env line args c heard typed given v = v
  handle_type-Inv CommandType.quit env line args c heard typed given v = v
  handle_type-Inv CommandType.stls env line args c heard typed given v =
      Same-Inv H _ _ (handle_stls-Same env c) v
  handle_type-Inv CommandType.user env line args c heard typed given v =
      handle_user-Inv H env args c v
  handle_type-Inv CommandType.pass env line args c heard typed given v =
      handle_pass-Inv H env line args c heard typed given v
  handle_type-Inv CommandType.unknown env line args c heard typed given v = v
  handle_type-Inv CommandType.stat env line args c heard typed given v =
      Same-Inv H _ _ (needs_auth-Same c _ refl) v
  handle_type-Inv CommandType.uidl env line args c heard typed given v =
      Same-Inv H _ _ (needs_auth-Same c _ refl) v
  handle_type-Inv CommandType.list env line args c heard typed given v =
      Same-Inv H _ _ (needs_auth-Same c _ refl) v
  handle_type-Inv CommandType.retr env line args c heard typed given v =
      Same-Inv H _ _ (handle_retr-Same env args c) v
  handle_type-Inv CommandType.dele env line args c heard typed given v = handle_dele-Inv H args c v
  handle_type-Inv CommandType.top env line args c heard typed given v =
      Same-Inv H _ _ (handle_top-Same env args c) v
  handle_type-Inv CommandType.rset env line args c heard typed given v = handle_rset-Inv c v
  handle_type-Inv CommandType.implementation env line args c heard typed given v = v

  abbrev NextInv : Next → Type 0
  NextInv (continue c) = Inv H c.session
  NextInv (stop c) = Inv H c.session
  NextInv broken = Unit

  after-Inv : (o : Outcome) → OutcomeInv H o → NextInv (after o)
  unfolding after
  after-Inv (Outcome.done true c) v = v
  after-Inv (Outcome.done false c) v = v
  after-Inv (Outcome.thrown (Exn.order what) c) v = v
  after-Inv (Outcome.thrown (Exn.syntax what) c) v = v
  after-Inv (Outcome.thrown (Exn.invalid what) c) v = v
  after-Inv (Outcome.thrown Exn.fatal c) v = v
  after-Inv (Outcome.thrown Exn.other c) v = v
  after-Inv Outcome.undefined v = tt

  step-Inv :
      (env : Env) (line : Bytes) (c : Conn)
      → H env line
      → Inv H c.session
      → NextInv (step env line c)
  unfolding step handle_command
  step-Inv env line c heard v =
      let command = Command.parse line in
      after-Inv _ (handle_type-Inv command.command_type env line command.args c heard refl refl v)

  go_on-Inv :
      (n : Next) (round : Conn → Next)
      → NextInv n
      → ((c : Conn) → Inv H c.session → NextInv (round c))
      → NextInv (go_on n round)
  unfolding go_on
  go_on-Inv (continue c) round v h = h c v
  go_on-Inv (stop c) round v h = v
  go_on-Inv broken round v h = tt

  serve-Inv :
      (lines : List (Env × Bytes)) (c : Conn)
      → ((k : ℕ) (env : Env) (line : Bytes) → get_elem? lines k ≡ some (env, line) → H env line)
      → Inv H c.session
      → NextInv (serve lines c)
  unfolding serve
  serve-Inv [] c heard v = v
  serve-Inv ((env, line) ∷ lines) c heard v =
      go_on-Inv _ _ (step-Inv env line c (heard 0 env line refl) v)
        (λ c' v'. serve-Inv lines c' (λ k. heard (suc k)) v')

  greet-Inv : (using_ssl : Bool) (name : Bytes) → Inv H (greet using_ssl name).session
  unfolding greet new_session has_bits
  greet-Inv using_ssl name = before_login refl refl refl

  -- Deletions are made for a verified login only, and of messages that the client marked.
  abbrev pub Safe : Closed → Type 0
  Safe (closed c made) =
      (made ≡ [])
      ⊎ (IsVerified H c.session × All (Marked c.session.references c.session.graveyard) made)
  Safe undefined_read = Unit

  closed-Safe :
      (fails : Deletion → Bool) (c : Conn) (made : List Deletion)
      → Inv H c.session
      → deletions fails c.session.references c.session.graveyard ≡ some made
      → Safe (closed c made)
  unfolding deletions
  closed-Safe fails c made (before_login a refs graves) e = inl (ground (arith, graves, e))
  closed-Safe fails c made (after_login own graves) e =
      inr (own, deletions-Marked fails c.session.references c.session.graveyard made e)

  finish-Safe : (fails : Deletion → Bool) (c : Conn) → Inv H c.session → Safe (finish fails c)
  unfolding finish close
  finish-Safe fails c v =
      let result = deletions fails c.session.references c.session.graveyard in
      elim (Option-cases result) [
        | inl e ↦ rw (e, close) tt
        | inr (made, e) ↦ rw (e, close) (closed-Safe fails c made v e)
      ]

  finish-defined :
      (fails : Deletion → Bool) (c : Conn) → Inv H c.session → finish fails c ≢ undefined_read
  unfolding finish close deletions
  finish-defined fails c (before_login a refs graves) = ground (arith, graves, refs)
  finish-defined fails c (after_login own graves) =
      ground (arith, deletions-defined fails c.session.references c.session.graveyard graves)

  end_of-Safe : (fails : Deletion → Bool) (n : Next) → NextInv n → Safe (end_of fails n)
  unfolding end_of
  end_of-Safe fails (continue c) v = finish-Safe fails c v
  end_of-Safe fails (stop c) v = finish-Safe fails c v
  end_of-Safe fails broken v = tt

  end_of-defined :
      (fails : Deletion → Bool) (n : Next)
      → NextInv n
      → n ≢ broken
      → end_of fails n ≢ undefined_read
  unfolding end_of
  end_of-defined fails (continue c) v h = finish-defined fails c v
  end_of-defined fails (stop c) v h = finish-defined fails c v
  end_of-defined fails broken v h = absurd (h refl)

-- The lines of a connection.
abbrev pub Sent : List (Env × Bytes) → Heard
Sent lines env line = (k : ℕ) × (get_elem? lines k ≡ some (env, line))

-- Whatever lines a client sends and whatever the databases answer: a connection that ends with
-- deletions has sent a line with PASS whose password was verified, when it was handled, against the
-- stored one of the account of the session, and each deletion is of a message that the session lists
-- and whose index stands in the graveyard.
pub handler-Safe :
    (fails : Deletion → Bool) (using_ssl : Bool) (name : Bytes) (lines : List (Env × Bytes))
    → Safe (Sent lines) (handler fails using_ssl name lines)
unfolding handler
handler-Safe fails using_ssl name lines = end_of-Safe (Sent lines) fails _ (
    serve-Inv (Sent lines) lines _ (λ k env line e. (k, e)) (greet-Inv (Sent lines) using_ssl name))

-- The deletions at the end of a connection never read behind the references, unless the loop over
-- the commands has run into undefined behaviour before.
pub handler-defined :
    (fails : Deletion → Bool) (using_ssl : Bool) (name : Bytes) (lines : List (Env × Bytes))
    → serve lines (greet using_ssl name) ≢ broken
    → handler fails using_ssl name lines ≢ undefined_read
unfolding handler
handler-defined fails using_ssl name lines h =
    end_of-defined (Sent lines) fails _
      (serve-Inv (Sent lines) lines _ (λ k env line e. (k, e))
        (greet-Inv (Sent lines) using_ssl name))
      h
