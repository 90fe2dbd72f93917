-- ===== src/Smtp/Client/Dialogue/Hello.antt =====
-- EHLO, with the commands in front of it: where it leads, and what it leaves as it is.
use mathlib.Core.List.{append-nil}
use fsmtp_v.Base.{
  ℕ, ◌<◌, Bool, true, false, List, [], ◌∷◌, ◌++◌, Option, none, some, ◌≡◌, refl, ◌∙◌, sym, arith,
  take, bit_or, if-elim,
}
use fsmtp_v.Base.Text.{Bytes, beq}
use fsmtp_v.Base.Numbers.{Stol}
use fsmtp_v.Models.EmailAddress.{Attempt, ok, throws, get_domain}
use fsmtp_v.Smtp.Session.Laws.{has_bits-set_keeps}
use fsmtp_v.Smtp.Command.{ClientCommandType}
use fsmtp_v.Smtp.Client.{Session, has_flag, Message, command, Written, Conn, Env, write}
use fsmtp_v.Smtp.Client.Action
use fsmtp_v.Smtp.Client.Dialogue.{
  Options, listed, unread, substr_throws, ask, and_then, answered, extend, ask_extensions,
  fcapa_verdict, su_verdict, option_flag, option_flags, read_options, read_hello, say_ehlo,
  hello_after, send, with_action,
}
use fsmtp_v.Smtp.Client.Dialogue.Stage.{
  mail_part, is_mail, mail_part-write, transaction, Stage, rank, actions, speaks_esmtp, over_ssl,
  progress, At, Leads, IsBeginning, fail-Leads,
}

-- The options set flags of the session, and nothing else; the flag of ESMTP stays.
record Kept (s t : Session) : Type 0 where
  acted : t.performed_actions ≡ s.performed_actions
  esmtp : has_flag s.flags 1 ≡ true → has_flag t.flags 1 ≡ true

flag-Kept : (s : Session) (mask : ℕ) → Kept s (record s { flags = bit_or s.flags mask })
unfolding has_flag
flag-Kept s mask = record { acted = refl; esmtp = has_bits-set_keeps s.flags mask 1 }

none-Kept : (s : Session) → Kept s s
none-Kept s = record { acted = refl; esmtp = λ h. h }

option_flag-Kept : (text : Bytes) (s : Session) → Kept s (option_flag text s)
unfolding option_flag
option_flag-Kept text s = ground (
  arith,
  none-Kept s,
  flag-Kept s 2,
  flag-Kept s 4,
  flag-Kept s 8,
  flag-Kept s 16,
  flag-Kept s 32,
)

option_flags-Kept : (texts : List Bytes) (s : Session) → Kept s (option_flags texts s)
unfolding option_flags
option_flags-Kept [] s = none-Kept s
option_flags-Kept (text ∷ texts) s =
    let one = option_flag-Kept text s in
    let more = option_flags-Kept texts (option_flag text s) in
    record { acted = more.acted ∙ one.acted; esmtp = λ h. more.esmtp (one.esmtp h) }

-- What stands before EHLO at a stage.
pub record Ready (env : Env) (s : Stage) (c : Conn) : Type 0 where
  pub acted : bit_or c.session.performed_actions Action.helo ≡ actions s
  pub esmtp : has_flag c.session.flags 1 ≡ true
  pub ssl : c.using_ssl ≡ over_ssl s
  pub mail : mail_part c.written ≡ take (progress s) (transaction env)

Ready-begins : (env : Env) (s : Stage) (c : Conn) → Ready env s c → IsBeginning env c.written
Ready-begins env s c h = (progress s, h.mail)

-- Of what is no part of the mail the transaction shows nothing.
pub aside :
    (ws : List Written) (m : Message) (secured : Bool)
    → is_mail m ≡ false
    → mail_part (ws ++ record { message = m; secured = secured } ∷ []) ≡ mail_part ws
unfolding mail_part
aside ws m secured h =
    mail_part-write ws (record { message = m; secured = secured })
    ∙ rw (mail_part, h) (append-nil (mail_part ws))

-- A command that is no part of the mail leaves all as it stands.
send-Ready :
    (env : Env) (s : Stage) (t : ClientCommandType) (args : List Bytes) (c : Conn)
    → is_mail (command t args) ≡ false
    → Ready env s c
    → Ready env s (send t args c)
unfolding write
send-Ready env s t args c side h = record {
  acted = h.acted;
  esmtp = h.esmtp;
  ssl = h.ssl;
  mail = aside c.written (command t args) c.using_ssl side ∙ h.mail;
}

answered-Ready :
    (env : Env) (s : Stage) (verdict : Stol × Bytes → Option Bytes) (c : Conn) (lines : List Bytes)
    → Ready env s c
    → Ready env s ((answered env verdict c lines).1)
unfolding answered
answered-Ready env s verdict c [] h = h
answered-Ready env s verdict c (line ∷ lines) h = record {
  acted = h.acted;
  esmtp = h.esmtp;
  ssl = h.ssl;
  mail = h.mail;
}

ask-Ready :
    (env : Env) (s : Stage) (t : ClientCommandType) (verdict : Stol × Bytes → Option Bytes)
    (c : Conn)
    → is_mail (command t []) ≡ false
    → Ready env s c
    → Ready env s ((ask env t verdict c).1)
unfolding ask
ask-Ready env s t verdict c side h =
    answered-Ready env s verdict (send t [] c) c.inbox (send-Ready env s t [] c side h)

and_then-Ready :
    (env : Env) (s : Stage) (p : Option Bytes × Conn) (next : Conn → Option Bytes × Conn)
    → Ready env s (p.1)
    → ((c : Conn) → Ready env s c → Ready env s ((next c).1))
    → Ready env s ((and_then p next).1)
unfolding and_then
and_then-Ready env s (none, c) next h keeps = keeps c h
and_then-Ready env s (some what, c) next h keeps = h

extend-Ready :
    (env : Env) (s : Stage) (c : Conn) (domain : Attempt Bytes)
    → Ready env s c
    → Ready env s ((extend env c domain).1)
unfolding extend is_mail
extend-Ready env s c (throws what) h = h
extend-Ready env s c (ok domain) h =
    let fcapa = ask env ClientCommandType.fcapa fcapa_verdict c in
    let su = ask env ClientCommandType.su su_verdict in
    if-elim (λ p. Ready env s (p.1)) (beq domain env.domain) (and_then fcapa su) (none, c)
      (and_then-Ready env s fcapa su
        (ask-Ready env s ClientCommandType.fcapa fcapa_verdict c refl h)
        (λ c'. ask-Ready env s ClientCommandType.su su_verdict c' refl))
      h

-- The options leave the stage as it is.
pub option_flags-At :
    (env : Env) (s : Stage) (c : Conn) (texts lines : List Bytes)
    → At env s c
    → speaks_esmtp s ≡ true
    → At env s (record c { session = option_flags texts c.session; inbox = lines })
option_flags-At env s c texts lines h speaks =
    let kept = option_flags-Kept texts c.session in
    record {
      acted = kept.acted ∙ h.acted;
      esmtp = kept.esmtp (h.esmtp ∙ speaks) ∙ sym speaks;
      ssl = h.ssl;
      mail = h.mail;
    }

read_hello-Leads :
    (env : Env) (from s : Stage) (c : Conn) (o : Options)
    → rank from < rank s
    → At env s c
    → speaks_esmtp s ≡ true
    → Leads env from (read_hello c o)
unfolding read_hello
read_hello-Leads env from s c (listed texts lines) later h speaks =
    (s, later, option_flags-At env s c texts lines h speaks)
read_hello-Leads env from s c unread later h speaks = (progress s, h.mail)
read_hello-Leads env from s c substr_throws later h speaks = (progress s, h.mail)

-- The connection behind EHLO.
abbrev pub said : Env → Conn → Conn
said env c = send ClientCommandType.ehlo (env.client_domain ∷ []) (with_action c Action.helo)

pub said-At :
    (env : Env) (s : Stage) (c : Conn)
    → speaks_esmtp s ≡ true
    → Ready env s c
    → At env s (said env c)
unfolding write is_mail
said-At env s c speaks h = record {
  acted = h.acted;
  esmtp = h.esmtp ∙ sym speaks;
  ssl = h.ssl;
  mail =
      aside c.written (command ClientCommandType.ehlo (env.client_domain ∷ [])) c.using_ssl refl
      ∙ h.mail;
}

say_ehlo-Leads :
    (env : Env) (from s : Stage) (c : Conn)
    → rank from < rank s
    → speaks_esmtp s ≡ true
    → Ready env s c
    → Leads env from (say_ehlo env c)
unfolding say_ehlo
say_ehlo-Leads env from s c later speaks h =
    read_hello-Leads env from s (said env c) (read_options ((said env c).inbox)) later
      (said-At env s c speaks h) speaks

-- The extensions and EHLO lead to the stage that the connection is ready for.
hello_after-Leads :
    (env : Env) (from s : Stage) (p : Option Bytes × Conn)
    → rank from < rank s
    → speaks_esmtp s ≡ true
    → Ready env s (p.1)
    → Leads env from (hello_after env p)
unfolding hello_after
hello_after-Leads env from s (none, c) later speaks h = say_ehlo-Leads env from s c later speaks h
hello_after-Leads env from s (some what, c) later speaks h =
    fail-Leads env from what c (Ready-begins env s c h)

pub extended-Leads :
    (env : Env) (from s : Stage) (c : Conn)
    → rank from < rank s
    → speaks_esmtp s ≡ true
    → Ready env s c
    → Leads env from (hello_after env (ask_extensions env c))
unfolding ask_extensions
extended-Leads env from s c later speaks h =
    hello_after-Leads env from s (ask_extensions env c) later speaks
      (extend-Ready env s c (get_domain env.target) h)
