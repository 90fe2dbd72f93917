-- ===== src/Models/EmailAddress.antt =====
-- lib/models/Email.src.cc: addresses, with or without a name.
pub mod Laws
pub mod Lists
use fsmtp_v.Base.{
  ℕ, suc, Bool, true, false, not, ◌&&◌, List, [], ◌∷◌, ◌++◌, Option, none, some, ◌+◌, ◌-◌, ◌%◌, ◌^◌,
  ◌==◌, if◌then◌else◌, take, drop, ◌≡◌, refl, ◌⊎◌, inl, inr,
}
use fsmtp_v.Base.Text.{
  Bytes, codes, find_first_of, find_last_of, front, back, pop_back, erase_front,
}
use fsmtp_v.General.Cleanup.{reduce_whitespace, remove_first_and_last_white}

pub record EmailAddress : Type 0 where
  pub name : Bytes
  pub address : Bytes

-- A value, or the text of the `runtime_error` that is thrown.
pub data Attempt {ℓ} (A : Type ℓ) : Type ℓ where
  ok : A → Attempt A
  throws : Bytes → Attempt A

pub Attempt-cases {ℓ} :
    {A : Type ℓ} (a : Attempt A) → ((what : Bytes) × (a ≡ throws what)) ⊎ ((x : A) × (a ≡ ok x))
Attempt-cases (ok x) = inr (x, refl)
Attempt-cases (throws what) = inl (what, refl)

-- One space off each end, then one quote off each end.
unfoldable pub clean_name : Bytes → Bytes
clean_name clean =
    let a = if front clean == b' ' then erase_front clean else clean in
    let b = if back a == b' ' then pop_back a else a in
    let c = if front b == b'"' then erase_front b else b in if back c == b'"' then pop_back c else c

-- `raw.substr(open + 1, close - open - 1)`, on 64-bit sizes: the rest of the text if the closing
-- bracket comes first.
unfoldable pub between : Bytes → ℕ → ℕ → Bytes
between raw open_bracket close_bracket =
    take ((close_bracket + 2 ^ 64 - open_bracket - 1) % 2 ^ 64) (drop (suc open_bracket) raw)

abbrev pub with_address : Bytes → Bytes → EmailAddress
with_address name address = record { name = name; address = remove_first_and_last_white address }

-- `parse`, into a fresh address.
unfoldable pub parse_brackets : Bytes → Option ℕ → Option ℕ → Attempt EmailAddress
unfolding clean_name between
parse_brackets raw (some i) (some j) =
    ok (with_address (clean_name (reduce_whitespace (take i raw))) (between raw i j))
parse_brackets raw none none = ok (with_address [] raw)
parse_brackets raw _ _ =
    throws (codes "Only one bracket found, address should contain both opening and closing.")

unfoldable pub parse : Bytes → Attempt EmailAddress
unfolding parse_brackets
parse raw = elim (find_first_of b'@' raw) [
  | none ↦ throws (codes "Could not find @")
  | some at ↦ elim (find_last_of b'.' raw) [
    | none ↦ throws (codes "Could not find domain extension")
    | some dot ↦ parse_brackets raw (find_first_of b'<' raw) (find_first_of b'>' raw)
  ]
]

unfoldable pub to_string : EmailAddress → Bytes
to_string e =
    let brackets = b'<' ∷ (e.address ++ b'>' ∷ []) in
    elim e.name [ [] ↦ brackets | c ∷ rest ↦ e.name ++ b' ' ∷ brackets ]

unfoldable pub get_domain : EmailAddress → Attempt Bytes
get_domain e = elim (find_first_of b'@' e.address) [
  | none ↦ throws (codes "Invalid email address")
  | some index ↦ ok (drop (suc index) e.address)
]

unfoldable pub get_username : EmailAddress → Attempt Bytes
get_username e = elim (find_first_of b'@' e.address) [
  | none ↦ throws (codes "Invalid email address")
  | some index ↦ ok (take index e.address)
]
