-- ===== src/Smtp/Server/Limit.antt =====
-- How many commands of a client the server reads.
use fsmtp_v.Base.{ℕ, zero, suc, Bool, List, [], ◌∷◌, ◌≡◌, ◌⊎◌, inl, inr, refl, take}
use fsmtp_v.Base.Text.{Bytes}
use fsmtp_v.Smtp.Conn.{Conn}
use fsmtp_v.Smtp.Handlers.{Env}
use fsmtp_v.Smtp.Server.{Next, continue, stop, broken, step, greet, serve, handler}

Next-cases :
    (n : Next) → ((c : Conn) × (n ≡ continue c)) ⊎ ((c : Conn) × (n ≡ stop c)) ⊎ (n ≡ broken)
Next-cases (continue c) = inl (c, refl)
Next-cases (stop c) = inr (inl (c, refl))
Next-cases broken = inr (inr refl)

serve-take :
    (n : ℕ) (lines : List (Env × Bytes)) (c : Conn) → serve n (take n lines) c ≡ serve n lines c
unfolding serve
serve-take zero lines c = refl
serve-take (suc n) [] c = refl
serve-take (suc n) ((env, line) ∷ lines) c = elim (Next-cases (step env line c)) [
  | inl (d, e) ↦ rw (e, serve) (serve-take n lines d)
  | inr rest ↦ elim rest [ inl (d, e) ↦ rw (e, serve) refl | inr e ↦ rw (e, serve) refl ]
]

-- Only the first sixty lines of a client matter: the connection ends as if it had sent no more.
pub handler-take :
    (using_ssl : Bool) (lines : List (Env × Bytes))
    → handler using_ssl (take 60 lines) ≡ handler using_ssl lines
unfolding handler
handler-take using_ssl lines = serve-take 60 lines (greet using_ssl)
