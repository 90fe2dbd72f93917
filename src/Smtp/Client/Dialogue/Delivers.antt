-- ===== src/Smtp/Client/Dialogue/Delivers.antt =====
-- A server that answers every command with success gets the mail.
use mathlib.Core.Path.{subst}
use fsmtp_v.Base.{ℕ, suc, Bool, true, false, List, [], ◌≡◌, refl, ap, ◌∙◌, sym}
use fsmtp_v.Base.Text.{Bytes, codes, find}
use fsmtp_v.Smtp.Session.{has_bits}
use fsmtp_v.Smtp.Client.{Written, Error, Conn, Env, reply, receive}
use fsmtp_v.Smtp.Client.Dialogue.{
  listed, read_options, case_221, on_code, Ended, finished, escaped, broken, out_of_fuel, next,
  round, on_received, run, opened,
}
use fsmtp_v.Smtp.Client.Dialogue.Stage.{
  mail_part, transaction, Stage, connected, greeted, tls_asked, secured, sender, recipient,
  data_asked, sent, quitting, At, At-literal,
}
use fsmtp_v.Smtp.Client.Dialogue.Advances.{
  Fits, Yields, Goes, asks_tls, names_sender, names_target, asks_data, sends_body, quits,
  greets-Yields, upgrades-Yields,
}
use fsmtp_v.Smtp.Client.Dialogue.Outcome.{At-inbox, opened-At}

-- The lines of a server that agrees to everything: each field is a reply and what is left behind it.
pub record Agrees (lines : List Bytes) : Type 0 where
  pub greeting : Bytes
  pub hello_options : List Bytes
  pub tls_ready : Bytes
  pub tls_options : List Bytes
  pub sender_ok : Bytes
  pub recipient_ok : Bytes
  pub data_ok : Bytes
  pub message_ok : Bytes
  pub goodbye : Bytes
  pub lines1 : List Bytes
  pub lines2 : List Bytes
  pub lines3 : List Bytes
  pub lines4 : List Bytes
  pub lines5 : List Bytes
  pub lines6 : List Bytes
  pub lines7 : List Bytes
  pub lines8 : List Bytes
  pub lines9 : List Bytes
  pub greets : receive lines ≡ reply 220 greeting lines1
  pub names_esmtp : find (codes "ESMTP") greeting ≡ true
  pub lists : read_options lines1 ≡ listed hello_options lines2
  pub readies : receive lines2 ≡ reply 220 tls_ready lines3
  pub lists_again : read_options lines3 ≡ listed tls_options lines4
  pub takes_sender : receive lines4 ≡ reply 250 sender_ok lines5
  pub takes_recipient : receive lines5 ≡ reply 250 recipient_ok lines6
  pub takes_data : receive lines6 ≡ reply 354 data_ok lines7
  pub takes_message : receive lines7 ≡ reply 250 message_ok lines8
  pub leaves : receive lines8 ≡ reply 221 goodbye lines9

-- The whole transaction is written, and nothing is logged.
abbrev pub Delivered : Env → List Error → Ended → Type 0
Delivered env errors (finished c) = (mail_part c.written ≡ transaction env) × (c.errors ≡ errors)
Delivered env errors (escaped c) = ⊥
Delivered env errors broken = ⊥
Delivered env errors out_of_fuel = ⊥

-- A round that yields another.
yield_next :
    (env : Env) (errors : List Error) (fuel : ℕ) (p q : Bool) (s : Stage) (c : Conn)
    (lines : List Bytes)
    → Yields env q s lines errors (round env p c)
    → ((d : Conn)
        → At env s d
        → d.inbox ≡ lines
        → d.errors ≡ errors
        → Delivered env errors (run fuel env q d))
    → Delivered env errors (run (suc fuel) env p c)
unfolding run next
yield_next env errors fuel p q s c lines (d, e, h, inbox, same) more =
    subst (λ r. Delivered env errors (next (run fuel env) r)) (sym e) (more d h inbox same)

-- A step of a section's stage, at a connection that stands there.
goes :
    (env : Env) (args : Bytes) (code : ℕ) (s s' : Stage) (c : Conn)
    → ((flags : ℕ) (inbox : List Bytes) (written : List Written) (errors : List Error)
        → Goes env args flags inbox written errors code s s')
    → At env s c
    → Yields env true s' c.inbox c.errors (on_code env code args c)
goes env args code s s' c step h =
    subst (λ d. Yields env true s' c.inbox c.errors (on_code env code args d))
      (sym (At-literal env s c h))
      (step c.session.flags c.inbox c.written c.errors (h.esmtp, h.mail))

-- A reply, then the switch.
round-reply :
    (env : Env) (c : Conn) (lines rest : List Bytes) (code : ℕ) (args : Bytes)
    → c.inbox ≡ lines
    → receive lines ≡ reply code args rest
    → round env true c ≡ on_code env code args (record c { inbox = rest })
unfolding round on_received
round-reply env c lines rest code args inbox got = ap (on_received env c) (ap receive inbox ∙ got)

hears :
    (env : Env) (errors : List Error) (fuel : ℕ) (args : Bytes) (code : ℕ) (s s' : Stage) (c : Conn)
    (lines rest : List Bytes)
    → ((flags : ℕ) (inbox : List Bytes) (written : List Written) (errors' : List Error)
        → Goes env args flags inbox written errors' code s s')
    → At env s c
    → c.inbox ≡ lines
    → c.errors ≡ errors
    → receive lines ≡ reply code args rest
    → ((d : Conn)
        → At env s' d
        → d.inbox ≡ rest
        → d.errors ≡ errors
        → Delivered env errors (run fuel env true d))
    → Delivered env errors (run (suc fuel) env true c)
hears env errors fuel args code s s' c lines rest step h inbox same got more =
    let heard : Conn = record c { inbox = rest } in
    yield_next env errors fuel true true s' c rest
      (subst (λ r. Yields env true s' rest errors r)
        (sym (round-reply env c lines rest code args inbox got))
        (subst (λ l. Yields env true s' rest l (on_code env code args heard)) same
          (goes env args code s s' heard step (At-inbox env s c rest h))))
      more

-- The round behind EHLO reads no reply.
unheard :
    (env : Env) (errors : List Error) (fuel : ℕ) (s s' : Stage) (c : Conn) (lines : List Bytes)
    → Fits env
    → ((flags : ℕ) (inbox : List Bytes) (written : List Written) (errors' : List Error)
        → Goes env [] flags inbox written errors' 250 s s')
    → At env s c
    → c.inbox ≡ lines
    → c.errors ≡ errors
    → ((d : Conn)
        → At env s' d
        → d.inbox ≡ lines
        → d.errors ≡ errors
        → Delivered env errors (run fuel env true d))
    → Delivered env errors (run (suc fuel) env false c)
unfolding round
unheard env errors fuel s s' c lines fits step h inbox same more =
    yield_next env errors fuel false true s' c lines
      (subst (λ code. Yields env true s' lines errors (on_code env code [] c)) (sym (fits.holds c))
        (subst (λ l. Yields env true s' l errors (on_code env 250 [] c)) inbox
          (subst (λ l. Yields env true s' c.inbox l (on_code env 250 [] c)) same
            (goes env [] 250 s s' c step h))))
      more

-- The two rounds that end in EHLO.
extends :
    (env : Env) (errors : List Error) (fuel : ℕ) (args : Bytes) (s s' : Stage) (c : Conn)
    (lines behind rest : List Bytes) (texts : List Bytes)
    → ((d : Conn)
        → At env s d
        → d.inbox ≡ behind
        → Yields env false s' rest d.errors (on_code env 220 args d))
    → At env s c
    → c.inbox ≡ lines
    → c.errors ≡ errors
    → receive lines ≡ reply 220 args behind
    → ((d : Conn)
        → At env s' d
        → d.inbox ≡ rest
        → d.errors ≡ errors
        → Delivered env errors (run fuel env false d))
    → Delivered env errors (run (suc fuel) env true c)
extends env errors fuel args s s' c lines behind rest texts step h inbox same got more =
    let heard : Conn = record c { inbox = behind } in
    yield_next env errors fuel true false s' c rest
      (subst (λ r. Yields env false s' rest errors r)
        (sym (round-reply env c lines behind 220 args inbox got))
        (subst (λ l. Yields env false s' rest l (on_code env 220 args heard)) same
          (step heard (At-inbox env s c behind h) refl)))
      more

-- The last round.
leaves :
    (env : Env) (errors : List Error) (fuel : ℕ) (args : Bytes) (c : Conn) (lines rest : List Bytes)
    → At env quitting c
    → c.inbox ≡ lines
    → c.errors ≡ errors
    → receive lines ≡ reply 221 args rest
    → Delivered env errors (run (suc fuel) env true c)
unfolding run next on_code case_221 has_bits transaction
leaves env errors fuel args c lines rest h inbox same got =
    subst (λ r. Delivered env errors (next (run fuel env) r))
      (sym (round-reply env c lines rest 221 args inbox got))
      (rw (h.acted, on_code, case_221) (h.mail, same))

-- A server that greets as one of ESMTP and answers every command with success gets the whole mail:
-- in nine rounds the transaction is written over TLS and nothing is logged, if the target is not
-- in the domain of this server, the upgrade to TLS succeeds, and the variable that no round assigns
-- holds the 250 of the round before.
pub run-Delivered :
    (env : Env) (lines : List Bytes) (errors : List Error)
    → Fits env
    → Agrees lines
    → Delivered env errors (run 9 env true (opened lines errors))
run-Delivered env lines errors fits a =
    extends env errors 8 a.greeting connected greeted (opened lines errors) lines a.lines1 a.lines2
      a.hello_options
      (λ d h inbox.
        greets-Yields env a.greeting d a.hello_options a.lines2 fits a.names_esmtp h
          (ap read_options inbox ∙ a.lists))
      (opened-At env lines errors) refl refl a.greets
      λ c1 h1 i1 e1.
        unheard env errors 7 greeted tls_asked c1 a.lines2 fits (asks_tls env []) h1 i1 e1
          λ c2 h2 i2 e2.
            extends env errors 6 a.tls_ready tls_asked secured c2 a.lines2 a.lines3 a.lines4
              a.tls_options
              (λ d h inbox.
                upgrades-Yields env a.tls_ready d a.tls_options a.lines4 fits h
                  (ap read_options inbox ∙ a.lists_again))
              h2 i2 e2 a.readies
              λ c3 h3 i3 e3.
                unheard env errors 5 secured sender c3 a.lines4 fits (names_sender env []) h3 i3 e3
                  λ c4 h4 i4 e4.
                    hears env errors 4 a.sender_ok 250 sender recipient c4 a.lines4 a.lines5
                      (names_target env a.sender_ok) h4 i4 e4 a.takes_sender
                      λ c5 h5 i5 e5.
                        hears env errors 3 a.recipient_ok 250 recipient data_asked c5 a.lines5
                          a.lines6 (asks_data env a.recipient_ok) h5 i5 e5 a.takes_recipient
                          λ c6 h6 i6 e6.
                            hears env errors 2 a.data_ok 354 data_asked sent c6 a.lines6 a.lines7
                              (sends_body env a.data_ok) h6 i6 e6 a.takes_data
                              λ c7 h7 i7 e7.
                                hears env errors 1 a.message_ok 250 sent quitting c7 a.lines7
                                  a.lines8 (quits env a.message_ok) h7 i7 e7 a.takes_message
                                  λ c8 h8 i8 e8.
                                    leaves env errors 0 a.goodbye c8 a.lines8 a.lines9 h8 i8 e8
                                      a.leaves
