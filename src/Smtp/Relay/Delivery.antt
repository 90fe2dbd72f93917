-- ===== src/Smtp/Relay/Delivery.antt =====
-- `DATA` keeps the invariant, and so does each session that it hands to the workers.
use fsmtp_v.Base.{List, [], ◌∷◌, inl, inr, arith, All-append, nil-or-cons}
use fsmtp_v.Base.Text.{Bytes}
use fsmtp_v.Models.EmailAddress.{Attempt-cases}
use fsmtp_v.Smtp.Session.{Session, set_action, generate_snippet}
use fsmtp_v.Smtp.Session.Action
use fsmtp_v.Smtp.Session.Laws.{has_bits-set_other}
use fsmtp_v.Smtp.Reply.{data_start}
use fsmtp_v.Smtp.Conn.{Conn, write, with_session, plain}
use fsmtp_v.Smtp.Data.{
  DataEnv, Section, FullEmail, find_snippet, modify_targets, queue, store_email, deliver,
  check_and_deliver, data_handler,
}
use fsmtp_v.Smtp.Handlers.{Env}
use fsmtp_v.Smtp.Handlers.Auth.{handle_data}
use fsmtp_v.Smtp.Relay.{Known, Inv, ConnInv, OutcomeInv, keep}

module _ (L : Known) where
  find_snippet-Inv :
      (s : Session) (sections : List Section) → Inv L s → Inv L (find_snippet s sections)
  unfolding find_snippet generate_snippet
  find_snippet-Inv s [] v = v
  find_snippet-Inv s (b ∷ sections) v =
      ground (arith, find_snippet-Inv (generate_snippet s b.content) sections)

  modify_targets-Inv : (s : Session) → Inv L s → Inv L (modify_targets s)
  unfolding modify_targets
  modify_targets-Inv s v = ground arith

  queue-Inv : (env : DataEnv) (c : Conn) → ConnInv L c → OutcomeInv L (queue env c)
  unfolding queue
  queue-Inv env c v = ground (
    arith,
    All-append (Inv L) c.stored (c.session ∷ []) v.stored,
    All-append (Inv L) c.transmitted (c.session ∷ []) v.transmitted,
  )

  store_email-Inv :
      (env : DataEnv) (c : Conn) (email : FullEmail)
      → ConnInv L c
      → OutcomeInv L (store_email env c email)
  unfolding store_email
  store_email-Inv env c email v = elim (nil-or-cons email.from) [
    | inl e ↦ rw (e, store_email) tt
    | inr (sender, rest, e) ↦
        rw (e, store_email)
          (queue-Inv env _ (
            keep L c _ v (
              modify_targets-Inv _ (
                find_snippet-Inv _ email.sections (record {
                  local = ground arith;
                  authed = ground arith;
                  known = ground arith;
                  relayed = ground arith;
                })))))
  ]

  deliver-Inv :
      (env : DataEnv) (c : Conn) (results : List (Bytes × Bytes))
      → ConnInv L c
      → OutcomeInv L (deliver env c results)
  unfolding deliver
  deliver-Inv env c results v =
      let s = record (c.session) { raw = env.rebuild c.session.raw results } in
      elim (Attempt-cases (env.parse_mime s.raw)) [
        | inl (what, e) ↦ rw (e, deliver) (keep L c s v (ground arith))
        | inr (email, e) ↦
            rw (e, deliver) (store_email-Inv env _ email (keep L c s v (ground arith)))
      ]

  check_and_deliver-Inv :
      (env : DataEnv) (c : Conn) (domain : Bytes)
      → ConnInv L c
      → OutcomeInv L (check_and_deliver env c domain)
  unfolding check_and_deliver
  check_and_deliver-Inv env c domain v = grind (arith, deliver-Inv)

  data_handler-Inv : (env : DataEnv) (c : Conn) → ConnInv L c → OutcomeInv L (data_handler env c)
  unfolding data_handler
  data_handler-Inv env c v = grind (arith, deliver-Inv, check_and_deliver-Inv)

  started-Inv : (s : Session) → Inv L s → Inv L (set_action s Action.data_start)
  started-Inv s v = ground (
    arith,
    has_bits-set_other s.performed_actions Action.data_start Action.auth_perf,
    has_bits-set_other s.performed_actions Action.data_start Action.mail_from,
  )

  pub handle_data-Inv : (env : Env) (c : Conn) → ConnInv L c → OutcomeInv L (handle_data env c)
  unfolding handle_data
  handle_data-Inv env c v =
      let s = set_action c.session Action.data_start in
      ground (
        arith,
        started-Inv c.session v.now,
        data_handler-Inv env.data_env (with_session (write c (plain data_start)) s),
      )
