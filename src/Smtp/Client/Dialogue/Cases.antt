-- ===== src/Smtp/Client/Dialogue/Cases.antt =====
-- The cases of the switch at each stage: where a code of the server leads.
use mathlib.Core.Path.{subst}
use fsmtp_v.Base.{
  ℕ, true, false, List, [], ◌∷◌, ◌++◌, Option, none, some, ◌≡◌, refl, ap, ◌∙◌, sym, arith, take,
  bit_or, if-elim, Bool-cases, inl, inr,
}
use fsmtp_v.Base.Text.{Bytes, codes, find}
use fsmtp_v.Smtp.Session.{has_bits}
use fsmtp_v.Smtp.Command.{ClientCommandType}
use fsmtp_v.Smtp.Client.{has_flag, Message, command, body, Written, Error, Conn, Env, write}
use fsmtp_v.Smtp.Client.Dialogue.{
  case_default, with_action, with_flag, fail, say_helo, hello, note_esmtp, upgrade, upgraded,
  case_220, case_354, case_250, case_221, on_code, bracketed,
}
use fsmtp_v.Smtp.Client.Dialogue.Stage.{
  mail_part, is_mail, mail_part-write, transaction, Stage, connected, greeted, tls_asked, secured,
  sender, recipient, data_asked, sent, quitting, actions, speaks_esmtp, over_ssl, progress,
  at_stage, At, Leads, case_default-Leads,
}
use fsmtp_v.Smtp.Client.Dialogue.Hello.{extended-Leads, aside}

module _ (env : Env) (code : ℕ) (args : Bytes) (flags : ℕ) (inbox : List Bytes)
    (written : List Written) (errors : List Error) where
  abbrev pub here : Stage → Conn
  here s = at_stage s flags inbox written errors

  -- The two facts of a stage that its words do not show.
  abbrev pub Standing : Stage → Type 0
  Standing s =
      (has_flag flags 1 ≡ speaks_esmtp s)
      × (mail_part written ≡ take (progress s) (transaction env))

  pub performed :
      (s s' : Stage) (m : Message) (mask : ℕ)
      → bit_or (actions s) mask ≡ actions s'
      → speaks_esmtp s ≡ speaks_esmtp s'
      → over_ssl s ≡ over_ssl s'
      → take (progress s) (transaction env)
          ++ mail_part (record { message = m; secured = over_ssl s } ∷ [])
        ≡ take (progress s') (transaction env)
      → Standing s
      → At env s' (write m (with_action (here s) mask))
  unfolding write
  performed s s' m mask acts speaks ssl mail (e, h) = record {
    acted = acts;
    esmtp = e ∙ speaks;
    ssl = ssl;
    mail =
        mail_part-write written (record { message = m; secured = over_ssl s })
        ∙ ap
            (λ (t : List Written).
              t ++ mail_part (record { message = m; secured = over_ssl s } ∷ []))
            h
        ∙ mail;
  }

  stops : (s : Stage) → Standing s → Leads env s (case_default env code args (here s))
  stops s (e, h) = case_default-Leads env s code args (here s) (progress s, h)

  abbrev On250 : Stage → Type 0
  On250 s = Leads env s (case_250 env code args (here s))

  abbrev On354 : Stage → Type 0
  On354 s = Leads env s (case_354 env code args (here s))

  abbrev On220 : Stage → Type 0
  On220 s = Leads env s (case_220 env code args (here s))

  -- Behind the greeting.
  hello-connected :
      (flags' : ℕ)
      → mail_part written ≡ []
      → Leads env connected (hello env code args (at_stage connected flags' inbox written errors))
  unfolding hello has_bits say_helo case_default fail write is_mail
  hello-connected flags' h = elim (Bool-cases (has_flag flags' 1)) [
    | inl e ↦
        rw (e, hello)
          (extended-Leads env connected greeted (at_stage connected flags' inbox written errors)
            (omega arith) refl (record { acted = refl; esmtp = e; ssl = refl; mail = h }))
    | inr e ↦
        rw (e, hello)
          (
            0,
            aside written (command ClientCommandType.helo (env.client_domain ∷ [])) false refl ∙ h,
          )
  ]

  case_220-connected : Standing connected → On220 connected
  unfolding case_220 note_esmtp has_bits
  case_220-connected (e, h) =
      rw (e, case_220)
        (if-elim (λ c. Leads env connected (hello env code args c)) (find (codes "ESMTP") args)
          (with_flag (here connected) 1) (here connected) (hello-connected (bit_or flags 1) h)
          (hello-connected flags h))

  case_220-greeted : Standing greeted → On220 greeted
  unfolding case_220 hello note_esmtp has_bits
  case_220-greeted h = stops greeted h

  -- The connection behind the upgrade.
  abbrev pub over_tls : Conn
  over_tls = record (here tls_asked) {
    using_ssl = true;
    session = record { performed_actions = 130; flags = flags };
  }

  hello-over_tls :
      has_flag flags 1 ≡ true
      → mail_part written ≡ []
      → Leads env tls_asked (hello env code args over_tls)
  unfolding hello has_bits
  hello-over_tls e h =
      rw (e, hello)
        (extended-Leads env tls_asked secured over_tls (omega arith) refl
          (record { acted = refl; esmtp = e; ssl = refl; mail = h }))

  pub note_esmtp-over_tls : has_flag flags 1 ≡ true → note_esmtp args over_tls ≡ over_tls
  unfolding note_esmtp has_bits
  note_esmtp-over_tls e = rw (e, note_esmtp) refl

  upgraded-Leads :
      (what : Option Bytes)
      → Standing tls_asked
      → Leads env tls_asked (upgraded env code args (here tls_asked) what)
  unfolding upgraded fail
  upgraded-Leads (some what) (e, h) = (0, h)
  upgraded-Leads none (e, h) =
      subst (λ c. Leads env tls_asked (hello env code args c)) (sym (note_esmtp-over_tls e))
        (hello-over_tls e h)

  case_220-tls_asked : Standing tls_asked → On220 tls_asked
  unfolding case_220 upgrade has_bits
  case_220-tls_asked h = rw (h.0, case_220) (upgraded-Leads env.upgrade_fails h)

  case_220-secured : Standing secured → On220 secured
  unfolding case_220 hello note_esmtp has_bits
  case_220-secured h = stops secured h

  case_220-sender : Standing sender → On220 sender
  unfolding case_220 hello note_esmtp has_bits
  case_220-sender h = stops sender h

  case_220-recipient : Standing recipient → On220 recipient
  unfolding case_220 hello note_esmtp has_bits
  case_220-recipient h = stops recipient h

  case_220-data_asked : Standing data_asked → On220 data_asked
  unfolding case_220 hello note_esmtp has_bits
  case_220-data_asked h = stops data_asked h

  case_220-sent : Standing sent → On220 sent
  unfolding case_220 has_bits mail_part is_mail transaction
  case_220-sent h = (
    quitting,
    omega arith,
    performed sent quitting (command ClientCommandType.quit []) 64 refl refl refl refl h,
  )

  case_220-quitting : Standing quitting → On220 quitting
  unfolding case_220 hello note_esmtp has_bits
  case_220-quitting h = stops quitting h

  case_354_lem : (s : Stage) → Standing s → On220 s → On354 s
  unfolding case_354 has_bits mail_part is_mail transaction
  case_354_lem data_asked h p = (
    sent,
    omega arith,
    performed data_asked sent (body env.transport_message) 32 refl refl refl refl h,
  )
  case_354_lem connected h p = p
  case_354_lem greeted h p = p
  case_354_lem tls_asked h p = p
  case_354_lem secured h p = p
  case_354_lem sender h p = p
  case_354_lem recipient h p = p
  case_354_lem sent h p = p
  case_354_lem quitting h p = p

  case_250_lem : (s : Stage) → Standing s → On354 s → On250 s
  unfolding case_250 upgrade has_bits mail_part is_mail transaction
  case_250_lem connected h p = p
  case_250_lem greeted h p =
      rw (h.0, case_250)
        (
          tls_asked,
          omega arith,
          performed greeted tls_asked (command ClientCommandType.start_tls []) 2 refl refl refl refl
              h,
        )
  case_250_lem tls_asked h p = rw (h.0, case_250) (upgraded-Leads env.upgrade_fails h)
  case_250_lem secured h p =
      rw (h.0, case_250)
        (
          sender,
          omega arith,
          performed secured sender
              (command ClientCommandType.mail_from (bracketed env.mail_from ∷ [])) 4 refl refl refl
              refl h,
        )
  case_250_lem sender h p =
      rw (h.0, case_250)
        (
          recipient,
          omega arith,
          performed sender recipient (command ClientCommandType.rcpt_to (bracketed env.target ∷ []))
              8 refl refl refl refl h,
        )
  case_250_lem recipient h p =
      rw (h.0, case_250)
        (
          data_asked,
          omega arith,
          performed recipient data_asked (command ClientCommandType.data_ []) 16 refl refl refl refl
              h,
        )
  case_250_lem data_asked h p = rw (h.0, case_250) p
  case_250_lem sent h p = rw (h.0, case_250) p
  case_250_lem quitting h p = rw (h.0, case_250) p

  case_220_lem : (s : Stage) → Standing s → On220 s
  case_220_lem connected h = case_220-connected h
  case_220_lem greeted h = case_220-greeted h
  case_220_lem tls_asked h = case_220-tls_asked h
  case_220_lem secured h = case_220-secured h
  case_220_lem sender h = case_220-sender h
  case_220_lem recipient h = case_220-recipient h
  case_220_lem data_asked h = case_220-data_asked h
  case_220_lem sent h = case_220-sent h
  case_220_lem quitting h = case_220-quitting h

  case_221_lem : (s : Stage) → Standing s → On250 s → Leads env s (case_221 env code args (here s))
  unfolding case_221 has_bits
  case_221_lem quitting h p = (5, h.1)
  case_221_lem connected h p = p
  case_221_lem greeted h p = p
  case_221_lem tls_asked h p = p
  case_221_lem secured h p = p
  case_221_lem sender h p = p
  case_221_lem recipient h p = p
  case_221_lem data_asked h p = p
  case_221_lem sent h p = p

  pub on_code-Leads : (s : Stage) → Standing s → Leads env s (on_code env code args (here s))
  unfolding on_code
  on_code-Leads s h =
      let c220 = case_220_lem s h in
      let c354 = case_354_lem s h c220 in
      let c250 = case_250_lem s h c354 in
      let c221 = case_221_lem s h c250 in let none = stops s h in ground arith
