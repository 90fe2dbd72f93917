-- ===== src/Pop3/Server/Safety/Login.antt =====
-- `USER` and `PASS` keep the invariant.
use fsmtp_v.Base.{true, false, List, [], ◌≡◌, inl, inr, arith, bit_or, Bool-cases}
use fsmtp_v.Smtp.Session.Laws.{has_bits-set}
use fsmtp_v.Base.Text.{Bytes}
use fsmtp_v.Models.Account.{AccountShortcut, found}
use fsmtp_v.Models.EmailAddress.{EmailAddress}
use fsmtp_v.Pop3.Conn.{
  Session, flag_auth, get_flag, set_flag, set_action, action_pass, action_user, Conn,
}
use fsmtp_v.Pop3.Handlers.{Env}
use fsmtp_v.Pop3.Handlers.Login.{
  handle_user, handle_pass, find_user, check_user_domain, identify, check_pass, log_in,
}
use fsmtp_v.Pop3.Server.Safety.{
  Heard, IsVerified, Inv, before_login, after_login, OutcomeInv, or_stop-all,
}
use fsmtp_v.Pop3.Command.{CommandType}
use fsmtp_v.Pop3.Command
use fsmtp_v.Base.{◌∷◌}

module _ (H : Heard) where
  -- A line with PASS and this password has been heard.
  abbrev Typed : Env → Bytes → Type 0
  Typed env pass =
      (line : Bytes) × (rest : List Bytes) × H env line
      × ((Command.parse line).command_type ≡ CommandType.pass)
      × ((Command.parse line).args ≡ pass ∷ rest)

  -- Without the flag the session holds no messages and no graves.
  fresh :
      (s : Session)
      → Inv H s
      → get_flag s flag_auth ≡ false
      → (s.references ≡ []) × (s.graveyard ≡ [])
  fresh s (before_login a refs graves) h = (refs, graves)
  fresh s (after_login own graves) h = absurd (cc (own.authenticated))

  log_in-Inv :
      (env : Env) (pass hash : Bytes) (c : Conn)
      → Typed env pass
      → Inv H c.session
      → get_flag c.session flag_auth ≡ false
      → env.password_of c.session.account ≡ found hash
      → env.password_verify pass hash ≡ true
      → OutcomeInv H (log_in env pass c)
  unfolding log_in
  log_in-Inv env pass hash c (line, rest, heard, is_pass, given) v h stored verified =
      or_stop-all (OutcomeInv H) _ c _ v λ refs.
        let s = record (c.session) { references = refs; pass = pass } in
        let known = set_flag (set_action s action_pass) flag_auth in
        let own : IsVerified H known = record {
          authenticated = has_bits-set c.session.flags flag_auth;
          env = env;
          line = line;
          heard = heard;
          is_pass = is_pass;
          password = pass;
          rest = rest;
          given = given;
          hash = hash;
          stored = stored;
          verified = verified;
        } in
        after_login own (rw ((fresh c.session v h).1) tt)

  check_pass-Inv :
      (env : Env) (pass : Bytes) (c : Conn)
      → Typed env pass
      → Inv H c.session
      → get_flag c.session flag_auth ≡ false
      → OutcomeInv H (check_pass env pass c)
  unfolding check_pass
  check_pass-Inv env pass c typed v h =
      grind (arith, v, λ (hash : Bytes). log_in-Inv env pass hash c typed v h)

  pub handle_pass-Inv :
      (env : Env) (line : Bytes) (args : List Bytes) (c : Conn)
      → H env line
      → (Command.parse line).command_type ≡ CommandType.pass
      → (Command.parse line).args ≡ args
      → Inv H c.session
      → OutcomeInv H (handle_pass env args c)
  unfolding handle_pass
  handle_pass-Inv env line [] c heard is_pass given v = ground (arith, v)
  handle_pass-Inv env line (pass ∷ rest) c heard is_pass given v =
      elim (Bool-cases (get_flag c.session flag_auth)) [
        | inl a ↦ rw (a, handle_pass) v
        | inr a ↦
            grind (arith, v, a, check_pass-Inv env pass c (line, rest, heard, is_pass, given) v a)
      ]

  -- A session whose account is replaced before the login.
  identify-Inv :
      (env : Env) (arg : Bytes) (address : EmailAddress) (domain : Bytes) (c : Conn)
      → Inv H c.session
      → get_flag c.session flag_auth ≡ false
      → OutcomeInv H (identify env arg address domain c)
  unfolding identify
  identify-Inv env arg address domain c v h =
      let known : (account : AccountShortcut)
          → Inv H (record (c.session) {
            account = account;
            user = arg;
            actions = bit_or c.session.actions action_user;
          }) =
        λ account. before_login h (fresh c.session v h).0 (fresh c.session v h).1 in
      grind (arith, v, known)

  check_user_domain-Inv :
      (env : Env) (arg : Bytes) (address : EmailAddress) (domain : Bytes) (c : Conn)
      → Inv H c.session
      → get_flag c.session flag_auth ≡ false
      → OutcomeInv H (check_user_domain env arg address domain c)
  unfolding check_user_domain
  check_user_domain-Inv env arg address domain c v h =
      grind (arith, v, identify-Inv env arg address domain)

  find_user-Inv :
      (env : Env) (arg : Bytes) (c : Conn)
      → Inv H c.session
      → get_flag c.session flag_auth ≡ false
      → OutcomeInv H (find_user env arg c)
  unfolding find_user
  find_user-Inv env arg c v h = grind (arith, v, check_user_domain-Inv env, identify-Inv env)

  pub handle_user-Inv :
      (env : Env) (args : List Bytes) (c : Conn)
      → Inv H c.session
      → OutcomeInv H (handle_user env args c)
  unfolding handle_user
  handle_user-Inv env args c v = elim (Bool-cases (get_flag c.session flag_auth)) [
    | inl a ↦ rw (a, handle_user) v
    | inr a ↦ grind (arith, v, a, find_user-Inv env)
  ]
