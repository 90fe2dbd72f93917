-- ===== src/Smtp/Client/Targets/Transactions.antt =====
-- The transactions of all targets.
use fsmtp_v.Base.{ℕ, suc, Bool, true, false, List, [], ◌∷◌, ◌++◌, ◌≡◌, take}
use fsmtp_v.Base.Text.{Bytes}
use fsmtp_v.Models.EmailAddress.{throws}
use fsmtp_v.Smtp.Command.{ClientCommandType}
use fsmtp_v.Smtp.Client.{command, body, Written, Conn, Env}
use fsmtp_v.Smtp.Client.Dialogue.{bracketed}
use fsmtp_v.Smtp.Client.Dialogue.Stage.{mail_part, over_tls}
use fsmtp_v.Smtp.Client.Targets.{
  Server, Target, Net, Client, Social, all_done, left_by_exception, undefined, no_fuel,
}

-- The mail of a client for one of its targets, all of it over TLS.
abbrev pub whole : Client → Target → List Written
whole c target =
    over_tls (command ClientCommandType.mail_from (bracketed c.mail_from ∷ []))
    ∷ over_tls (command ClientCommandType.rcpt_to (bracketed target.address ∷ []))
    ∷ over_tls (command ClientCommandType.data_ [])
    ∷ over_tls (body c.transport_message)
    ∷ over_tls (command ClientCommandType.quit [])
    ∷ []

-- The dialogues that were held for targets, from the number of the first on, and whether they are all
-- of them: one for each target whose first server can be connected to, in their order, in which a
-- beginning of the mail for that target was written.
pub data Deals (net : Net) (c : Client) : ℕ → Bool → List Target → List (Env × Conn) → Type 0 where
  over : {n : ℕ} → Deals net c n true [] []
  skips :
      {n : ℕ} {all : Bool} {target : Target} {targets : List Target} {held : List (Env × Conn)}
      (server : Server) (servers : List Server) (what : Bytes)
      → target.servers ≡ server ∷ servers
      → net.connect n server ≡ throws what
      → Deals net c (suc n) all targets held
      → Deals net c n all (target ∷ targets) held
  deals :
      {n : ℕ} {all : Bool} {target : Target} {targets : List Target} {held : List (Env × Conn)}
      (env : Env) (conn : Conn) (k : ℕ)
      → mail_part conn.written ≡ take k (whole c target)
      → Deals net c (suc n) all targets held
      → Deals net c n all (target ∷ targets) ((env, conn) ∷ held)
  breaks_off :
      {n : ℕ} {target : Target} {targets : List Target} (env : Env) (conn : Conn) (k : ℕ)
      → mail_part conn.written ≡ take k (whole c target)
      → Deals net c n false (target ∷ targets) ((env, conn) ∷ [])

abbrev pub Adds :
    Net → Client → ℕ → Bool → List Target → List (Env × Conn) → List (Env × Conn) → Type 0
Adds net c n all targets before held =
    (new : List (Env × Conn)) × (held ≡ before ++ new) × Deals net c n all targets new

-- What is added to the dialogues held before.
abbrev pub TransactsFrom : Net → Client → ℕ → List Target → List (Env × Conn) → Social → Type 0
TransactsFrom net c n targets before (all_done held errors) = Adds net c n true targets before held
TransactsFrom net c n targets before (left_by_exception held) =
    Adds net c n false targets before held
TransactsFrom net c n targets before undefined = Unit
TransactsFrom net c n targets before no_fuel = ⊥

abbrev pub Transacts : Net → Client → Social → Type 0
Transacts net c = TransactsFrom net c 0 c.targets []
