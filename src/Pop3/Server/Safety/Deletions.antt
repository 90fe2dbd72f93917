-- ===== src/Pop3/Server/Safety/Deletions.antt =====
-- The deletions at the end of a POP3 connection against its graveyard.
use fsmtp_v.Base.{
  ℕ, Bool, List, [], ◌∷◌, none, some, ◌≡◌, inl, inr, refl, arith, ◌<◌, length, get_elem?,
  get_elem?-some, All, Option-cases,
}
use fsmtp_v.Pop3.Conn.{Reference}
use fsmtp_v.Pop3.Server.{Deletion, deletions}
use fsmtp_v.Base.{All-map, ◌≢◌, suc}
use fsmtp_v.Pop3.Server.{shortcut, raw}

-- The message of a deletion.
abbrev pub target : Deletion → Reference
target (shortcut r) = r
target (raw r) = r

-- The message was listed at the login, and stands in the graveyard.
abbrev pub Marked : List Reference → List ℕ → Deletion → Type 0
Marked refs graveyard d =
    (k : ℕ) × (i : ℕ) × (get_elem? graveyard k ≡ some i) × (get_elem? refs i ≡ some (target d))

Marked-cons :
    (refs : List Reference) (j : ℕ) (graveyard : List ℕ) (d : Deletion)
    → Marked refs graveyard d
    → Marked refs (j ∷ graveyard) d
Marked-cons refs j graveyard d (k, i, g, r) = (suc k, i, g, r)

pub deletions-Marked :
    (fails : Deletion → Bool) (refs : List Reference) (graveyard : List ℕ) (made : List Deletion)
    → deletions fails refs graveyard ≡ some made
    → All (Marked refs graveyard) made
unfolding deletions
deletions-Marked fails refs [] made h = ground arith
deletions-Marked fails refs (i ∷ graveyard) made h = elim (Option-cases (get_elem? refs i)) [
  | inl e ↦ absurd (ground (arith, e, h))
  | inr (r, e) ↦
      let here : (d : Deletion) → target d ≡ r → Marked refs (i ∷ graveyard) d =
        λ d t. (0, i, refl, rw (t) e) in
      elim (Option-cases (deletions fails refs graveyard)) [
        | inl rest ↦ ground (arith, e, rest, h, here (shortcut r) refl)
        | inr (more, rest) ↦
            let later : All (Marked refs (i ∷ graveyard)) more =
              All-map (Marked-cons refs i graveyard) more
                (deletions-Marked fails refs graveyard more rest) in
            ground (arith, e, rest, h, here (shortcut r) refl, here (raw r) refl, later)
      ]
]

-- With every grave in range the deletions are defined.
pub deletions-defined :
    (fails : Deletion → Bool) (refs : List Reference) (graveyard : List ℕ)
    → All (λ i. i < length refs) graveyard
    → deletions fails refs graveyard ≢ none
unfolding deletions
deletions-defined fails refs [] h = ground arith
deletions-defined fails refs (i ∷ graveyard) h =
    ground (arith, get_elem?-some refs i h.0, deletions-defined fails refs graveyard h.1)
