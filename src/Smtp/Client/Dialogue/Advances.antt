-- ===== src/Smtp/Client/Dialogue/Advances.antt =====
-- Where a command goes that the server answers with success.
use mathlib.Core.Path.{subst}
use fsmtp_v.Base.{ℕ, Bool, true, false, List, [], ◌∷◌, none, ◌≡◌, refl, ap, sym}
use fsmtp_v.Base.Text.{Bytes, codes, beq, find}
use fsmtp_v.Models.EmailAddress.{ok, get_domain}
use fsmtp_v.Smtp.Session.{has_bits}
use fsmtp_v.Smtp.Session.Laws.{has_bits-set}
use fsmtp_v.Smtp.Command.{ClientCommandType}
use fsmtp_v.Smtp.Client.{has_flag, command, body, Written, Error, Conn, Env, write}
use fsmtp_v.Smtp.Client.Dialogue.{
  Round, again, with_action, with_flag, listed, read_options, read_hello, say_ehlo, extend,
  ask_extensions, hello_after, hello, note_esmtp, upgraded, upgrade, bracketed, case_220, case_354,
  case_250, on_code, option_flags,
}
use fsmtp_v.Smtp.Client.Dialogue.Stage.{
  mail_part, is_mail, transaction, Stage, connected, greeted, tls_asked, secured, sender, recipient,
  data_asked, sent, quitting, speaks_esmtp, at_stage, At, At-literal,
}
use fsmtp_v.Smtp.Client.Dialogue.Hello.{Ready, said, said-At, option_flags-At}
use fsmtp_v.Smtp.Client.Dialogue.Cases.{Standing, performed, over_tls, note_esmtp-over_tls}

-- What is taken for granted of the surroundings: the target is not in the domain of this server, the
-- upgrade succeeds, and the variable `code` still holds the 250 that the round before has left.
pub record Fits (env : Env) : Type 0 where
  pub domain : Bytes
  pub has_domain : get_domain env.target ≡ ok domain
  pub elsewhere : beq domain env.domain ≡ false
  pub upgrades : env.upgrade_fails ≡ none
  pub holds : (c : Conn) → env.held c ≡ 250

-- Another round, at a stage, with what is left of the lines.
abbrev pub Yields : Env → Bool → Stage → List Bytes → List Error → Round → Type 0
Yields env perform s lines errors r =
    (c : Conn) × (r ≡ again perform c) × At env s c × (c.inbox ≡ lines) × (c.errors ≡ errors)

module _ (env : Env) (args : Bytes) (flags : ℕ) (inbox : List Bytes) (written : List Written)
    (errors : List Error) where
  abbrev pub Stands : Stage → Type 0
  Stands s = Standing env 250 args flags inbox written errors s

  abbrev pub here : Stage → Conn
  here s = at_stage s flags inbox written errors

  -- The code at which the client goes on, and where it goes.
  abbrev pub Goes : ℕ → Stage → Stage → Type 0
  Goes code s s' = Stands s → Yields env true s' inbox errors (on_code env code args (here s))

  pub asks_tls : Goes 250 greeted tls_asked
  unfolding on_code case_250 has_bits write mail_part is_mail transaction
  asks_tls h =
      rw (h.0, on_code, case_250)
        (
          write (command ClientCommandType.start_tls []) (with_action (here greeted) 2),
          refl,
          performed env 250 args flags inbox written errors greeted tls_asked
              (command ClientCommandType.start_tls []) 2 refl refl refl refl h,
          refl,
          refl,
        )

  pub names_sender : Goes 250 secured sender
  unfolding on_code case_250 has_bits write mail_part is_mail transaction
  names_sender h =
      let m = command ClientCommandType.mail_from (bracketed env.mail_from ∷ []) in
      rw (h.0, on_code, case_250)
        (
          write m (with_action (here secured) 4),
          refl,
          performed env 250 args flags inbox written errors secured sender m 4 refl refl refl refl
              h,
          refl,
          refl,
        )

  pub names_target : Goes 250 sender recipient
  unfolding on_code case_250 has_bits write mail_part is_mail transaction
  names_target h =
      let m = command ClientCommandType.rcpt_to (bracketed env.target ∷ []) in
      rw (h.0, on_code, case_250)
        (
          write m (with_action (here sender) 8),
          refl,
          performed env 250 args flags inbox written errors sender recipient m 8 refl refl refl refl
              h,
          refl,
          refl,
        )

  pub asks_data : Goes 250 recipient data_asked
  unfolding on_code case_250 has_bits write mail_part is_mail transaction
  asks_data h =
      let m = command ClientCommandType.data_ [] in
      rw (h.0, on_code, case_250)
        (
          write m (with_action (here recipient) 16),
          refl,
          performed env 250 args flags inbox written errors recipient data_asked m 16 refl refl refl
              refl h,
          refl,
          refl,
        )

  pub sends_body : Goes 354 data_asked sent
  unfolding on_code case_354 has_bits write mail_part is_mail transaction
  sends_body h =
      let m = body env.transport_message in
      (
        write m (with_action (here data_asked) 32),
        refl,
        performed env 250 args flags inbox written errors data_asked sent m 32 refl refl refl refl
            h,
        refl,
        refl,
      )

  pub quits : Goes 250 sent quitting
  unfolding on_code case_250 case_354 case_220 has_bits write mail_part is_mail transaction
  quits h =
      let m = command ClientCommandType.quit [] in
      rw (h.0, on_code, case_250)
        (
          write m (with_action (here sent) 64),
          refl,
          performed env 250 args flags inbox written errors sent quitting m 64 refl refl refl refl
              h,
          refl,
          refl,
        )

say_ehlo-Yields :
    (env : Env) (s : Stage) (c : Conn) (texts lines : List Bytes)
    → speaks_esmtp s ≡ true
    → Ready env s c
    → read_options c.inbox ≡ listed texts lines
    → Yields env false s lines c.errors (say_ehlo env c)
unfolding say_ehlo read_hello write
say_ehlo-Yields env s c texts lines speaks h got = (
  record (said env c) { session = option_flags texts (said env c).session; inbox = lines },
  ap (read_hello (said env c)) got,
  option_flags-At env s (said env c) texts lines (said-At env s c speaks h) speaks,
  refl,
  refl,
)

hello_after-ask_extensions :
    (env : Env) (c : Conn) → Fits env → hello_after env (ask_extensions env c) ≡ say_ehlo env c
unfolding ask_extensions extend hello_after
hello_after-ask_extensions env c fits =
    rw (fits.has_domain, fits.elsewhere, ask_extensions, extend) refl

-- A session that has the flag of ESMTP, and not HELO, says EHLO.
hello-Yields :
    (env : Env) (code : ℕ) (args : Bytes) (s : Stage) (c : Conn) (texts lines : List Bytes)
    → Fits env
    → has_bits c.session.performed_actions 1 ≡ false
    → speaks_esmtp s ≡ true
    → Ready env s c
    → read_options c.inbox ≡ listed texts lines
    → Yields env false s lines c.errors (hello env code args c)
unfolding hello
hello-Yields env code args s c texts lines fits none_yet speaks h got =
    rw (none_yet, h.esmtp, hello, hello_after-ask_extensions env c fits)
      (say_ehlo-Yields env s c texts lines speaks h got)

-- The greeting names ESMTP: EHLO follows.
pub greets-Yields :
    (env : Env) (args : Bytes) (c : Conn) (texts lines : List Bytes)
    → Fits env
    → find (codes "ESMTP") args ≡ true
    → At env connected c
    → read_options c.inbox ≡ listed texts lines
    → Yields env false greeted lines c.errors (on_code env 220 args c)
unfolding on_code case_220 note_esmtp has_bits has_flag
greets-Yields env args c texts lines fits speaks h got =
    subst (λ d. Yields env false greeted lines c.errors (on_code env 220 args d))
      (sym (At-literal env connected c h))
      (let here = at_stage connected c.session.flags c.inbox c.written c.errors in
        let with_esmtp = with_flag here 1 in
        let ready : Ready env greeted with_esmtp = record {
          acted = refl;
          esmtp = has_bits-set c.session.flags 1;
          ssl = refl;
          mail = h.mail;
        } in
        rw (h.esmtp, speaks, on_code, case_220, note_esmtp)
          (hello-Yields env 220 args greeted with_esmtp texts lines fits refl refl ready got))

-- The server is ready for TLS: the upgrade and the second EHLO follow.
pub upgrades-Yields :
    (env : Env) (args : Bytes) (c : Conn) (texts lines : List Bytes)
    → Fits env
    → At env tls_asked c
    → read_options c.inbox ≡ listed texts lines
    → Yields env false secured lines c.errors (on_code env 220 args c)
unfolding on_code case_220 upgrade upgraded has_bits
upgrades-Yields env args c texts lines fits h got =
    subst (λ d. Yields env false secured lines c.errors (on_code env 220 args d))
      (sym (At-literal env tls_asked c h))
      (let before = at_stage tls_asked c.session.flags c.inbox c.written c.errors in
        let behind = over_tls env 220 args c.session.flags c.inbox c.written c.errors in
        let ready : Ready env secured behind = record {
          acted = refl;
          esmtp = h.esmtp;
          ssl = refl;
          mail = h.mail;
        } in
        rw (h.esmtp, on_code, case_220, upgrade)
          (subst
            (λ what. Yields env false secured lines c.errors (upgraded env 220 args before what))
            (sym fits.upgrades)
            (subst (λ d. Yields env false secured lines c.errors (hello env 220 args d))
              (sym (
                note_esmtp-over_tls env 220 args c.session.flags c.inbox c.written c.errors
                  h.esmtp))
              (hello-Yields env 220 args secured behind texts lines fits refl refl ready got))))
