-- ===== src/Smtp/Client/Dialogue/Outcome.antt =====
-- A whole dialogue: it ends, and what it writes of the mail is a beginning of one transaction.
use mathlib.Core.Path.{subst}
use fsmtp_v.Base.{
  ℕ, zero, suc, ◌+◌, ◌≤◌, ◌<◌, Bool, true, false, List, [], ◌∷◌, ◌++◌, ◌≡◌, ◌≢◌, refl, sym, ap, ◌∙◌,
  arith,
}
use fsmtp_v.Base.Text.{Bytes, codes, find}
use fsmtp_v.Base.Numbers.{to_string_signed}
use fsmtp_v.Models.EmailAddress.{to_string}
use fsmtp_v.Smtp.Session.{has_bits}
use fsmtp_v.Smtp.Command.{ClientCommandType}
use fsmtp_v.Smtp.Client.{
  has_flag, command, Error, Conn, Env, write, add_error, Received, reply, caught, uncaught,
  undefined_behaviour, receive,
}
use fsmtp_v.Smtp.Client.Dialogue.{
  Round, again, over, escapes, undefined, Ended, finished, escaped, broken, out_of_fuel, fail,
  case_default, say_helo, hello, note_esmtp, case_220, on_code, last, on_received, round, next, run,
  opened,
}
use fsmtp_v.Smtp.Client.Dialogue.Stage.{
  mail_part, Stage, connected, greeted, tls_asked, secured, sender, recipient, data_asked, sent,
  quitting, rank, progress, At, Leads, IsBeginning, At-literal,
}
use fsmtp_v.Smtp.Client.Dialogue.Cases.{on_code-Leads}

At-on_code :
    (env : Env) (s : Stage) (code : ℕ) (args : Bytes) (c : Conn)
    → At env s c
    → Leads env s (on_code env code args c)
At-on_code env s code args c h =
    subst (λ d. Leads env s (on_code env code args d)) (sym (At-literal env s c h))
      (on_code-Leads env code args c.session.flags c.inbox c.written c.errors s (h.esmtp, h.mail))

pub At-inbox :
    (env : Env) (s : Stage) (c : Conn) (lines : List Bytes)
    → At env s c
    → At env s (record c { inbox = lines })
At-inbox env s c lines h = record { acted = h.acted; esmtp = h.esmtp; ssl = h.ssl; mail = h.mail }

last-Leads : (env : Env) (s : Stage) (r : Round) → Leads env s r → Leads env s (last r)
unfolding last
last-Leads env s (again perform c) (s', later, h) = (progress s', h.mail)
last-Leads env s (over c) h = h
last-Leads env s (escapes c) h = h
last-Leads env s undefined h = tt

on_received-Leads :
    (env : Env) (s : Stage) (c : Conn) (r : Received)
    → At env s c
    → Leads env s (on_received env c r)
unfolding on_received
on_received-Leads env s c (reply code args lines) h =
    At-on_code env s code args (record c { inbox = lines }) (At-inbox env s c lines h)
on_received-Leads env s c (caught lines) h =
    let c' : Conn = record c { inbox = lines } in
    last-Leads env s (on_code env (env.held c) [] c')
      (At-on_code env s (env.held c) [] c' (At-inbox env s c lines h))
on_received-Leads env s c uncaught h = (progress s, h.mail)
on_received-Leads env s c undefined_behaviour h = tt

round-Leads :
    (env : Env) (s : Stage) (perform : Bool) (c : Conn)
    → At env s c
    → Leads env s (round env perform c)
unfolding round
round-Leads env s true c h = on_received-Leads env s c (receive c.inbox) h
round-Leads env s false c h = At-on_code env s (env.held c) [] c h

-- It ends, and what it wrote of the mail is a beginning of the transaction.
abbrev pub Ends : Env → Ended → Type 0
Ends env (finished c) = IsBeginning env c.written
Ends env (escaped c) = IsBeginning env c.written
Ends env broken = Unit
Ends env out_of_fuel = ⊥

rank-le : (s : Stage) → rank s ≤ 8
rank-le connected = omega arith
rank-le greeted = omega arith
rank-le tls_asked = omega arith
rank-le secured = omega arith
rank-le sender = omega arith
rank-le recipient = omega arith
rank-le data_asked = omega arith
rank-le sent = omega arith
rank-le quitting = omega arith

next-Ends :
    (env : Env) (s : Stage) (more : Bool → Conn → Ended) (r : Round)
    → Leads env s r
    → ((s' : Stage) (perform : Bool) (c : Conn)
        → rank s < rank s'
        → At env s' c
        → Ends env (more perform c))
    → Ends env (next more r)
unfolding next
next-Ends env s more (again perform c) (s', later, h) ends = ends s' perform c later h
next-Ends env s more (over c) h ends = h
next-Ends env s more (escapes c) h ends = h
next-Ends env s more undefined h ends = tt

run-Ends :
    (fuel : ℕ) (env : Env) (s : Stage) (perform : Bool) (c : Conn)
    → At env s c
    → 9 ≤ fuel + rank s
    → Ends env (run fuel env perform c)
unfolding run
run-Ends zero env s perform c h enough = absurd (omega (arith, rank-le s))
run-Ends (suc fuel) env s perform c h enough =
    next-Ends env s (run fuel env) (round env perform c) (round-Leads env s perform c h)
      (λ s' p c' later h'. run-Ends fuel env s' p c' h' (omega arith))

pub opened-At :
    (env : Env) (lines : List Bytes) (errors : List Error) → At env connected (opened lines errors)
unfolding has_flag has_bits mail_part
opened-At env lines errors = record { acted = refl; esmtp = refl; ssl = refl; mail = refl }

pub run-Ends-opened :
    (env : Env) (lines : List Bytes) (errors : List Error)
    → Ends env (run 9 env true (opened lines errors))
run-Ends-opened env lines errors =
    run-Ends 9 env connected true (opened lines errors) (opened-At env lines errors) (omega arith)

-- A dialogue takes at most nine rounds, whatever the server answers and whatever the variable that
-- no round assigns holds.
pub run-ne-out_of_fuel :
    (fuel : ℕ) (env : Env) (lines : List Bytes) (errors : List Error)
    → 9 ≤ fuel
    → run fuel env true (opened lines errors) ≢ out_of_fuel
run-ne-out_of_fuel fuel env lines errors enough e = subst (Ends env) e (
    run-Ends fuel env connected true (opened lines errors) (opened-At env lines errors)
      (omega arith))

-- What is left of a connection to a server that does not speak ESMTP.
abbrev pub turned_away : Env → Bytes → List Bytes → List Error → Conn
turned_away env args rest errors = record {
  session = record { performed_actions = 1; flags = 0 };
  using_ssl = false;
  inbox = rest;
  written =
      record { message = command ClientCommandType.helo (env.client_domain ∷ []); secured = false }
      ∷ [];
  errors = add_error (to_string env.target) (codes "Transmission error: 220: " ++ args) errors;
}

on_code-plain :
    (env : Env) (args : Bytes) (rest : List Bytes) (errors : List Error)
    → find (codes "ESMTP") args ≡ false
    → on_code env 220 args (opened rest errors) ≡ over (turned_away env args rest errors)
unfolding on_code case_220 note_esmtp hello say_helo case_default fail has_flag has_bits write
    to_string_signed
on_code-plain env args rest errors plain = rw (plain, on_code, case_220, note_esmtp) refl

-- To a server whose greeting does not name ESMTP the client says HELO, falls into the default case,
-- and logs the greeting as an error: nothing else is written.
pub run-plain :
    (fuel : ℕ) (env : Env) (lines rest : List Bytes) (args : Bytes) (errors : List Error)
    → receive lines ≡ reply 220 args rest
    → find (codes "ESMTP") args ≡ false
    → run (suc fuel) env true (opened lines errors) ≡ finished (turned_away env args rest errors)
unfolding run next round on_received
run-plain fuel env lines rest args errors got plain =
    ap (next (run fuel env))
      (ap (on_received env (opened lines errors)) got ∙ on_code-plain env args rest errors plain)
