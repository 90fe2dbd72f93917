-- ===== src/Models/EmailAddress/Lists.antt =====
-- lib/models/Email.src.cc: a header's list of addresses.
use mathlib.Core.List.{append_assoc}
use fsmtp_v.Base.{
  ℕ, Bool, false, not, ◌&&◌, List, [], ◌∷◌, ◌++◌, ◌==◌, if◌then◌else◌, ◌≡◌, ◌⊎◌, inl, inr, refl,
  ◌∙◌, arith, Bool-cases,
}
use fsmtp_v.Base.Text.{Bytes}
use fsmtp_v.Models.EmailAddress.{EmailAddress, Attempt, ok, throws, parse}

-- Whether a quoted sequence is open behind the byte.
abbrev pub quoted : Bool → ℕ → Bool
quoted inside c = if c == b'"' then not inside else inside

-- The loop over the bytes: the texts that are handed to the address parser.
unfoldable pub split_loop : Bool → Bytes → Bytes → List Bytes
split_loop inside [] [] = []
split_loop inside (b ∷ buffer) [] = (b ∷ buffer) ∷ []
split_loop inside buffer (c ∷ s) =
    let now = quoted inside c in
    let cut = split_loop now [] s in
    let more = split_loop now (buffer ++ c ∷ []) s in
    if (c == b',') && not now then buffer ∷ cut else more

unfoldable pub split_addresses : Bytes → List Bytes
split_addresses raw = split_loop false [] raw

unfoldable pub parse_all : List Bytes → Attempt (List EmailAddress)
parse_all [] = ok []
parse_all (text ∷ texts) = elim (parse text) [
  | throws what ↦ throws what
  | ok address ↦ elim (parse_all texts) [
    | throws what ↦ throws what
    | ok addresses ↦ ok (address ∷ addresses)
  ]
]

-- `parseAddressList`.
unfoldable pub parse_address_list : Bytes → Attempt (List EmailAddress)
parse_address_list raw = parse_all (split_addresses raw)

-- The texts with a comma behind each.
unfoldable pub closed : List Bytes → Bytes
closed [] = []
closed (text ∷ texts) = text ++ b',' ∷ closed texts

split_loop-closed :
    (inside : Bool) (buffer s : Bytes)
    → (closed (split_loop inside buffer s) ≡ buffer ++ s)
      ⊎ (closed (split_loop inside buffer s) ≡ buffer ++ (s ++ b',' ∷ []))
unfolding split_loop closed
split_loop-closed inside [] [] = inl refl
split_loop-closed inside (b ∷ buffer) [] = inr (unfold closed in refl)
split_loop-closed inside buffer (c ∷ s) =
    let now = quoted inside c in
    let cut = split_loop-closed now [] s in
    let more = split_loop-closed now (buffer ++ c ∷ []) s in
    elim (Bool-cases ((c == b',') && not now)) [
      | inl e ↦
          let comma : c ≡ b',' = ground (arith, e) in
          elim cut [
            | inl p ↦ inl (rw (e, split_loop, closed, p, comma) refl)
            | inr p ↦ inr (rw (e, split_loop, closed, p, comma) refl)
          ]
      | inr e ↦ elim more [
        | inl p ↦ inl (rw (e, split_loop) (p ∙ append_assoc buffer (c ∷ []) s))
        | inr p ↦ inr (rw (e, split_loop) (p ∙ append_assoc buffer (c ∷ []) (s ++ b',' ∷ [])))
      ]
    ]

-- Nothing of an address list is lost: the texts that are parsed, with a comma behind each, are the
-- list, or the list with a comma behind it.
pub split_addresses-closed :
    (raw : Bytes)
    → (closed (split_addresses raw) ≡ raw) ⊎ (closed (split_addresses raw) ≡ raw ++ b',' ∷ [])
unfolding split_addresses
split_addresses-closed raw = split_loop-closed false [] raw
