-- ===== src/Pop3/Server/Safety/Messages.antt =====
-- The POP3 commands that name a message keep the invariant.
use fsmtp_v.Base.{
  ℕ, true, List, [], ◌∷◌, Option, none, some, ◌≡◌, inl, inr, refl, arith, ◌<◌, ltb, leb, length,
  get_elem?, All-append, Bool-cases, Option-cases,
}
use fsmtp_v.Base.{◌++◌}
use fsmtp_v.Base.Text.{Bytes}
use fsmtp_v.Base.Numbers.{stol, decrement}
use fsmtp_v.Pop3.Conn.{Reference, ResponseType, flag_auth, get_flag, Conn}
use fsmtp_v.Pop3.Handlers.{Env}
use fsmtp_v.Pop3.Handlers.Messages.{
  handle_top, handle_retr, handle_dele, top_index, send_top, send_text, retr_index, send_retr,
  dele_index, add_grave,
}
use fsmtp_v.Pop3.Server.Safety.{
  Heard, with_graves, Inv, before_login, after_login, OutcomeInv, Same, needs_auth-Same,
  needs_auth-Inv, or_stop-all, or_syntax-all,
}

send_text-Same :
    (t : ResponseType) (r : Reference) (c : Conn) (body : Option Bytes)
    → Same c.session (send_text t r c body)
unfolding send_text
send_text-Same t r c none = tt
send_text-Same t r c (some body) = refl

send_top-Same : (env : Env) (i line : ℕ) (c : Conn) → Same c.session (send_top env i line c)
unfolding send_top
send_top-Same env i line c = elim (Option-cases (get_elem? c.session.references i)) [
  | inl e ↦ rw (e, send_top) tt
  | inr (r, e) ↦
      rw (e, send_top) (or_stop-all (Same c.session) _ c _ refl λ content. send_text-Same _ r c _)
]

pub handle_top-Same :
    (env : Env) (args : List Bytes) (c : Conn) → Same c.session (handle_top env args c)
unfolding handle_top top_index
handle_top-Same env [] c = needs_auth-Same c _ refl
handle_top-Same env (a ∷ []) c = needs_auth-Same c _ refl
handle_top-Same env (a ∷ b ∷ args) c = needs_auth-Same c _ (
    or_syntax-all (Same c.session) _ (stol a) c _ (λ e. refl)
      λ v.
        or_syntax-all (Same c.session) _ (stol b) c _ (λ e. refl)
          λ line. send_top-Same env (decrement v) line c)

send_retr-Same : (env : Env) (i : ℕ) (c : Conn) → Same c.session (send_retr env i c)
unfolding send_retr
send_retr-Same env i c = elim (Bool-cases (ltb (length c.session.references) i)) [
  | inl h ↦ rw (h, send_retr) refl
  | inr h ↦ elim (Option-cases (get_elem? c.session.references i)) [
    | inl e ↦ rw (h, e, send_retr) tt
    | inr (r, e) ↦
        rw (h, e, send_retr)
          (or_stop-all (Same c.session) _ c _ refl λ content. send_text-Same _ r c _)
  ]
]

pub handle_retr-Same :
    (env : Env) (args : List Bytes) (c : Conn) → Same c.session (handle_retr env args c)
unfolding handle_retr retr_index
handle_retr-Same env [] c = needs_auth-Same c _ refl
handle_retr-Same env (a ∷ args) c = needs_auth-Same c _ (
    or_syntax-all (Same c.session) _ (stol a) c _ (λ e. refl)
      λ v. send_retr-Same env (decrement v) c)

module _ (H : Heard) where
  -- `DELE` adds a grave for a message that there is.
  add_grave-Inv :
      (i : ℕ) (c : Conn)
      → get_flag c.session flag_auth ≡ true
      → Inv H c.session
      → OutcomeInv H (add_grave i c)
  unfolding add_grave
  add_grave-Inv i c a (before_login b refs graves) = absurd cc
  add_grave-Inv i c a (after_login own graves) =
      elim (Bool-cases (leb (length c.session.references) i)) [
        | inl h ↦ rw (h, add_grave) (after_login own graves)
        | inr h ↦
            let P : ℕ → Type 0 = λ i. i < length c.session.references in
            let below : P i = ground (arith, h) in
            rw (h, add_grave)
              (after_login (with_graves H c.session (c.session.graveyard ++ i ∷ []) own)
                (All-append P c.session.graveyard (i ∷ []) graves (below, tt)))
      ]

  pub handle_dele-Inv :
      (args : List Bytes) (c : Conn) → Inv H c.session → OutcomeInv H (handle_dele args c)
  unfolding handle_dele dele_index
  handle_dele-Inv [] c v = needs_auth-Inv H c _ v λ a. v
  handle_dele-Inv (arg ∷ args) c v = needs_auth-Inv H c _ v λ a.
      or_syntax-all (OutcomeInv H) _ (stol arg) c _ (λ e. v) λ n. add_grave-Inv (decrement n) c a v
