-- ===== src/Smtp/Client/Dialogue/Stage.antt =====
-- The stages of a dialogue with a server: what was performed, and what was written of the
-- transaction of the mail.
use fsmtp_v.Base.{
  ℕ, ◌<◌, Bool, true, false, List, [], ◌∷◌, ◌++◌, ◌≡◌, refl, ap, take, if◌then◌else◌,
}
use fsmtp_v.Base.Text.{Bytes}
use fsmtp_v.Smtp.Command.{ClientCommandType}
use fsmtp_v.Smtp.Client.{has_flag, Message, command, body, Written, Error, Conn, Env}
use fsmtp_v.Smtp.Client.Dialogue.{
  Round, again, over, escapes, undefined, bracketed, fail, case_default,
}

-- Whether a message belongs to the transaction of the mail.
unfoldable pub is_mail : Message → Bool
is_mail (body text) = true
is_mail (command ClientCommandType.mail_from args) = true
is_mail (command ClientCommandType.rcpt_to args) = true
is_mail (command ClientCommandType.data_ args) = true
is_mail (command ClientCommandType.quit args) = true
is_mail (command _ args) = false

unfoldable pub mail_part : List Written → List Written
unfolding is_mail
mail_part [] = []
mail_part (w ∷ ws) = let rest = mail_part ws in if is_mail w.message then w ∷ rest else rest

abbrev pub over_tls : Message → Written
over_tls m = record { message = m; secured = true }

-- The whole transaction.
unfoldable pub transaction : Env → List Written
transaction env =
    over_tls (command ClientCommandType.mail_from (bracketed env.mail_from ∷ []))
    ∷ over_tls (command ClientCommandType.rcpt_to (bracketed env.target ∷ []))
    ∷ over_tls (command ClientCommandType.data_ [])
    ∷ over_tls (body env.transport_message)
    ∷ over_tls (command ClientCommandType.quit [])
    ∷ []

pub mail_part-write :
    (ws : List Written) (w : Written)
    → mail_part (ws ++ w ∷ []) ≡ mail_part ws ++ mail_part (w ∷ [])
unfolding mail_part
mail_part-write [] w = refl
mail_part-write (x ∷ ws) w =
    elim (is_mail x.message)
      as (λ b.
        (if b then x ∷ mail_part (ws ++ w ∷ []) else mail_part (ws ++ w ∷ []))
        ≡ (if b then x ∷ mail_part ws else mail_part ws) ++ mail_part (w ∷ [])) [
          | true ↦ ap (◌∷◌ x) (mail_part-write ws w)
          | false ↦ mail_part-write ws w
        ]

-- The stages in their order.
pub data Stage : Type 0 where
  connected greeted tls_asked secured sender recipient data_asked sent quitting : Stage

abbrev pub rank : Stage → ℕ
rank connected = 0
rank greeted = 1
rank tls_asked = 2
rank secured = 3
rank sender = 4
rank recipient = 5
rank data_asked = 6
rank sent = 7
rank quitting = 8

-- The word of the actions performed.
abbrev pub actions : Stage → ℕ
actions connected = 0
actions greeted = 1
actions tls_asked = 3
actions secured = 131
actions sender = 135
actions recipient = 143
actions data_asked = 159
actions sent = 191
actions quitting = 255

abbrev pub speaks_esmtp : Stage → Bool
speaks_esmtp connected = false
speaks_esmtp _ = true

abbrev pub over_ssl : Stage → Bool
over_ssl connected = false
over_ssl greeted = false
over_ssl tls_asked = false
over_ssl _ = true

-- How much of the transaction is written.
abbrev pub progress : Stage → ℕ
progress connected = 0
progress greeted = 0
progress tls_asked = 0
progress secured = 0
progress sender = 1
progress recipient = 2
progress data_asked = 3
progress sent = 4
progress quitting = 5

abbrev pub at_stage : Stage → ℕ → List Bytes → List Written → List Error → Conn
at_stage s flags inbox written errors = record {
  session = record { performed_actions = actions s; flags = flags };
  using_ssl = over_ssl s;
  inbox = inbox;
  written = written;
  errors = errors;
}

-- A connection that stands at a stage.
pub record At (env : Env) (s : Stage) (c : Conn) : Type 0 where
  pub acted : c.session.performed_actions ≡ actions s
  pub esmtp : has_flag c.session.flags 1 ≡ speaks_esmtp s
  pub ssl : c.using_ssl ≡ over_ssl s
  pub mail : mail_part c.written ≡ take (progress s) (transaction env)

-- A connection at a stage, with the words of the stage in place.
pub At-literal :
    (env : Env) (s : Stage) (c : Conn)
    → At env s c
    → c ≡ at_stage s c.session.flags c.inbox c.written c.errors
At-literal env s c h = λ i. record {
  session = record { performed_actions = h.acted i; flags = c.session.flags };
  using_ssl = h.ssl i;
  inbox = c.inbox;
  written = c.written;
  errors = c.errors;
}

-- What was written of the transaction is a beginning of it.
abbrev pub IsBeginning : Env → List Written → Type 0
IsBeginning env written = (n : ℕ) × (mail_part written ≡ take n (transaction env))

-- Where a round leads from a stage: to a later one, or to the end.
abbrev pub Leads : Env → Stage → Round → Type 0
Leads env s (again perform c) = (s' : Stage) × (rank s < rank s') × At env s' c
Leads env s (over c) = IsBeginning env c.written
Leads env s (escapes c) = IsBeginning env c.written
Leads env s undefined = Unit

pub fail-Leads :
    (env : Env) (s : Stage) (message : Bytes) (c : Conn)
    → IsBeginning env c.written
    → Leads env s (fail env message c)
unfolding fail
fail-Leads env s message c h = h

pub case_default-Leads :
    (env : Env) (s : Stage) (code : ℕ) (args : Bytes) (c : Conn)
    → IsBeginning env c.written
    → Leads env s (case_default env code args c)
unfolding case_default fail
case_default-Leads env s code args c h = h
