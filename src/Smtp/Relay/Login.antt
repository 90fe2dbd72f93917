-- ===== src/Smtp/Relay/Login.antt =====
-- What `authVerify` has shown where it says yes.
use fsmtp_v.Base.{true, List, ◌∷◌, ◌≡◌, refl, arith, inl, inr, ◌⊎◌, sym, ap, ◌∙◌}
use fsmtp_v.Base.Text.{Bytes}
use fsmtp_v.Models.Account.{
  AccountShortcut, Query, found, empty_query, database_exception, runtime_error,
}
use fsmtp_v.Models.EmailAddress
use fsmtp_v.Models.EmailAddress.{
  EmailAddress, Attempt, ok, throws, get_domain, get_username, Attempt-cases,
}
use fsmtp_v.Smtp.Command.{ClientCommandType}
use fsmtp_v.Smtp.Command
use fsmtp_v.Smtp.Handlers.{Env}
use fsmtp_v.Smtp.Handlers.Auth.{verified, check_password, find_user, auth_verify}

-- Which lines a connection has heard, each with what its handler got from outside.
abbrev pub Heard : Type 1
Heard = Env → Bytes → Type 0

-- The user is the account in the databases, and the password was verified against the stored one of
-- the account.
pub data Accepts (env : Env) (user password : Bytes) (account : AccountShortcut) : Type 0 where
  accepts :
      (address : EmailAddress) (domain username hash : Bytes)
      → EmailAddress.parse user ≡ ok address
      → get_domain address ≡ ok domain
      → get_username address ≡ ok username
      → env.local_domain domain ≡ found tt
      → env.find_account domain username ≡ found account
      → env.password_of account ≡ found hash
      → env.password_verify password hash ≡ true
      → Accepts env user password account

-- A line with AUTH has been heard whose credentials its handler's databases accept for the account.
pub data LoggedIn (H : Heard) (account : AccountShortcut) : Type 0 where
  logged_in :
      (env : Env) (line mechanism credentials user password : Bytes) (rest : List Bytes)
      → H env line
      → (Command.parse line).command_type ≡ ClientCommandType.auth
      → (Command.parse line).arguments ≡ mechanism ∷ credentials ∷ rest
      → env.decode_credentials credentials ≡ ok (user, password)
      → Accepts env user password account
      → LoggedIn H account

Query-cases {ℓ} :
    {A : Type ℓ} (q : Query A)
    → ((a : A) × (q ≡ found a)) ⊎ (q ≡ empty_query) ⊎ (q ≡ database_exception) ⊎ (q ≡ runtime_error)
Query-cases (found a) = inl (a, refl)
Query-cases empty_query = inr (inl refl)
Query-cases database_exception = inr (inr (inl refl))
Query-cases runtime_error = inr (inr (inr refl))

module _ (env : Env) (user password : Bytes) (account : AccountShortcut) where
  check_password-true :
      (known : AccountShortcut)
      → check_password env password known ≡ verified account true
      → (hash : Bytes) × (known ≡ account)
        × (env.password_of known ≡ found hash)
        × (env.password_verify password hash ≡ true)
  unfolding check_password
  check_password-true known h = elim (Query-cases (env.password_of known)) [
    | inl (hash, e) ↦
        let same : verified known (env.password_verify password hash) ≡ verified account true =
          rw (e, check_password) at h in
        (hash, cc, e, cc)
    | inr (inl e) ↦ absurd (ground (arith, e, h))
    | inr (inr (inl e)) ↦ absurd (ground (arith, e, h))
    | inr (inr (inr e)) ↦ absurd (ground (arith, e, h))
  ]

  find_user-true :
      (domain username : Bytes)
      → find_user env domain username password ≡ verified account true
      → (hash : Bytes) × (env.local_domain domain ≡ found tt)
        × (env.find_account domain username ≡ found account)
        × (env.password_of account ≡ found hash)
        × (env.password_verify password hash ≡ true)
  unfolding find_user
  find_user-true domain username h = elim (Query-cases (env.local_domain domain)) [
    | inl (_, e) ↦ elim (Query-cases (env.find_account domain username)) [
      | inl (known, d) ↦
          let (hash, same, stored, verifies) =
            check_password-true known (rw (e, d, find_user) at h) in
          (hash, e, d ∙ ap found same, ap env.password_of (sym same) ∙ stored, verifies)
      | inr (inl d) ↦ absurd (ground (arith, e, d, h))
      | inr (inr (inl d)) ↦ absurd (ground (arith, e, d, h))
      | inr (inr (inr d)) ↦ absurd (ground (arith, e, d, h))
    ]
    | inr (inl e) ↦ absurd (ground (arith, e, h))
    | inr (inr (inl e)) ↦ absurd (ground (arith, e, h))
    | inr (inr (inr e)) ↦ absurd (ground (arith, e, h))
  ]

  pub auth_verify-Accepts :
      auth_verify env user password ≡ verified account true → Accepts env user password account
  unfolding auth_verify
  auth_verify-Accepts h = elim (Attempt-cases (EmailAddress.parse user)) [
    | inl (what, e) ↦ absurd (ground (arith, e, h))
    | inr (address, e) ↦ elim (Attempt-cases (get_domain address)) [
      | inl (what, d) ↦ absurd (ground (arith, e, d, h))
      | inr (domain, d) ↦ elim (Attempt-cases (get_username address)) [
        | inl (what, u) ↦ absurd (ground (arith, e, d, u, h))
        | inr (username, u) ↦
            let (hash, local, finds, stored, verifies) =
              find_user-true domain username (rw (e, d, u, auth_verify) at h) in
            accepts address domain username hash e d u local finds stored verifies
      ]
    ]
  ]
