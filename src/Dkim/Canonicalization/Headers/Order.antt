-- ===== src/Dkim/Canonicalization/Headers/Order.antt =====
-- lib/dkim/DKIMCanonicalization.src.cc, `relaxedHeaders`: which headers the relaxed form has, and in
-- which order.
use fsmtp_v.Base.{
  ℕ, Bool, true, false, List, [], ◌∷◌, Option, none, some, if◌then◌else◌, ◌≡◌, refl, sym, ◌∙◌,
  arith, All, All-map, Option-cases, Bool-cases, inl, inr,
}
use fsmtp_v.Base.Text.{Bytes, beq, beq_iff, find_first_of}
use fsmtp_v.Mime.{get_mime_lines}
use fsmtp_v.Dkim.Canonicalization.Headers.{
  contains, key_at, relax_at, and_pair, relaxed_lines, find_header, sort_headers, non_empty,
  relaxed_headers,
}

-- The first header with a key, in its relaxed form.
unfoldable pub pick : Bytes → List Bytes → Option Bytes
pick key [] = none
pick key (line ∷ lines) =
    let rest = pick key lines in
    elim (find_first_of b':' line) [
      | none ↦ rest
      | some sep ↦ if beq (key_at sep line) key then some (relax_at sep line) else rest
    ]

-- One header for each key, in the order of the keys; none if a key has no header.
unfoldable pub picks : List Bytes → List Bytes → Option (List Bytes)
unfolding pick
picks lines [] = some []
picks lines (key ∷ keys) =
    let rest = picks lines keys in
    elim (pick key lines) [
      | none ↦ none
      | some header ↦ elim rest [ none ↦ none | some headers ↦ some (header ∷ headers) ]
    ]

-- Each line has a colon.
unfoldable pub well_formed : List Bytes → Bool
well_formed [] = true
well_formed (line ∷ lines) =
    let rest = well_formed lines in
    elim (find_first_of b':' line) [ none ↦ false | some sep ↦ rest ]

relaxed_lines-none :
    (filter lines : List Bytes) → well_formed lines ≡ false → relaxed_lines filter lines ≡ none
unfolding well_formed relaxed_lines and_pair
relaxed_lines-none filter [] h = absurd cc
relaxed_lines-none filter (line ∷ lines) h = elim (Option-cases (find_first_of b':' line)) [
  | inl e ↦ rw (relaxed_lines, e) refl
  | inr (sep, e) ↦
      rw (relaxed_lines, e, relaxed_lines-none filter lines (rw (well_formed, e) at h)) refl
]

-- Where each key of the filter is found.
abbrev Finds : List Bytes → List Bytes → List (Bytes × Bytes) → Type 0
Finds filter lines pairs =
    (key : Bytes) → contains key filter ≡ true → find_header key pairs ≡ pick key lines

pick_other :
    (filter : List Bytes) (key line : Bytes) (lines : List Bytes) (sep : ℕ)
    → find_first_of b':' line ≡ some sep
    → contains (key_at sep line) filter ≡ false
    → contains key filter ≡ true
    → pick key (line ∷ lines) ≡ pick key lines
unfolding pick
pick_other filter key line lines sep e left found = elim (Bool-cases (beq (key_at sep line) key)) [
  | inl same ↦ let moved = rw ((beq_iff (key_at sep line) key).0 same) at left in absurd cc
  | inr other ↦ rw (pick, e, other) refl
]

relaxed_lines-Finds :
    (filter lines : List Bytes)
    → well_formed lines ≡ true
    → (pairs : List (Bytes × Bytes)) × (relaxed_lines filter lines ≡ some pairs)
      × Finds filter lines pairs
unfolding well_formed relaxed_lines find_header pick and_pair
relaxed_lines-Finds filter [] h = ([], refl, λ key found. refl)
relaxed_lines-Finds filter (line ∷ lines) h = elim (Option-cases (find_first_of b':' line)) [
  | inl e ↦ absurd (ground (arith, e))
  | inr (sep, e) ↦
      let (pairs, reads, finds) = relaxed_lines-Finds filter lines (rw (well_formed, e) at h) in
      elim (Bool-cases (contains (key_at sep line) filter)) [
        | inl kept ↦ (
          (key_at sep line, relax_at sep line) ∷ pairs,
          rw (relaxed_lines, e, reads, kept, and_pair) refl,
          λ key found. rw (pick, e, find_header, finds key found) refl,
        )
        | inr left ↦ (
          pairs,
          rw (relaxed_lines, e, reads, left, and_pair) refl,
          λ key found. finds key found ∙ sym (pick_other filter key line lines sep e left found),
        )
      ]
]

sort_headers-picks :
    (filter lines keys : List Bytes) (pairs : List (Bytes × Bytes))
    → Finds filter lines pairs
    → All (λ key. contains key filter ≡ true) keys
    → sort_headers pairs keys ≡ picks lines keys
unfolding sort_headers picks
sort_headers-picks filter lines [] pairs finds h = refl
sort_headers-picks filter lines (key ∷ keys) pairs finds h =
    let rest = sort_headers-picks filter lines keys pairs finds h.1 in
    elim (Option-cases (pick key lines)) [
      | inl e ↦ rw (sort_headers, picks, finds key h.0, e) refl
      | inr (header, e) ↦ rw (sort_headers, picks, finds key h.0, e, rest) refl
    ]

contains_self : (filter : List Bytes) → All (λ key. contains key filter ≡ true) filter
unfolding contains
contains_self [] = tt
contains_self (key ∷ keys) = (
  ground (arith, (beq_iff key key).1 refl),
  All-map {P = λ k. contains k keys ≡ true} (λ k h. ground (arith, h)) keys (contains_self keys),
)

-- The relaxed form of headers is an exception where a line has no colon; else it has the first
-- header with each name of the filter, in the order of the filter, or is an exception where a name has
-- no header, or the filter none.
pub relaxed_headers-picks :
    (raw : Bytes) (filter : List Bytes)
    → relaxed_headers raw filter ≡ (
        if well_formed (get_mime_lines raw)
        then non_empty (picks (get_mime_lines raw) filter)
        else none)
unfolding relaxed_headers
relaxed_headers-picks raw filter = elim (Bool-cases (well_formed (get_mime_lines raw))) [
  | inl e ↦
      let (pairs, reads, finds) = relaxed_lines-Finds filter (get_mime_lines raw) e in
      rw
        (
          e,
          relaxed_headers,
          reads,
          sort_headers-picks filter (get_mime_lines raw) filter pairs finds (contains_self filter),
        )
        refl
  | inr e ↦ rw (e, relaxed_headers, relaxed_lines-none filter (get_mime_lines raw) e) refl
]
