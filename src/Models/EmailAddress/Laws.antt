-- ===== src/Models/EmailAddress/Laws.antt =====
-- The user name and the domain are the two sides of the first `@`, and a printed address is
-- parsed back.
use fsmtp_v.Base.{
  ℕ, suc, [], ◌∷◌, ◌++◌, some, ◌+◌, ◌-◌, ◌%◌, ◌^◌, ◌<◌, ◌≡◌, ◌≢◌, refl, ◌∙◌, arith, take, drop,
  length, Option-cases, inl, inr, zero,
}
use fsmtp_v.Base.Text.{
  Bytes, find_first_of, find_last_of, front, back, Avoids, find_first_of-append, take-length,
  split_at,
}
use fsmtp_v.General.Cleanup.{remove_first_and_last_white, reduce_whitespace, reduce_loop}
use fsmtp_v.Models.EmailAddress.{
  EmailAddress, ok, parse, to_string, get_domain, get_username, between, parse_brackets,
}

-- Whenever an address has a user name it has a domain, the address is the two joined by `@`, and
-- the user name holds no `@`.
pub get_username-get_domain :
    (e : EmailAddress) (user : Bytes)
    → get_username e ≡ ok user
    → (domain : Bytes) × (get_domain e ≡ ok domain)
      × (e.address ≡ user ++ b'@' ∷ domain)
      × Avoids b'@' user
unfolding get_username get_domain
get_username-get_domain e user h = elim (Option-cases (find_first_of b'@' e.address)) [
  | inl missing ↦ absurd (ground (arith, missing))
  | inr (i, at) ↦
      let (splits, avoids) = split_at b'@' e.address i at in
      let same : take i e.address ≡ user = ground (arith, at) in
      (drop (suc i) e.address, rw (at, get_domain), rw same at splits, rw same at avoids)
]

find_first_of-append_left :
    (c : ℕ) (s t : Bytes) (i : ℕ) → find_first_of c s ≡ some i → find_first_of c (s ++ t) ≡ some i
unfolding find_first_of
find_first_of-append_left c [] t i h = cc
find_first_of-append_left c (x ∷ s) t zero h = ground (arith, h)
find_first_of-append_left c (x ∷ s) t (suc i) h = ground (arith, find_first_of-append_left c s t i)

find_last_of-append_left :
    (c : ℕ) (s t : Bytes) (j : ℕ)
    → find_last_of c s ≡ some j
    → (k : ℕ) × (find_last_of c (s ++ t) ≡ some k)
unfolding find_last_of
find_last_of-append_left c [] t j h = cc
find_last_of-append_left c (x ∷ s) t j h = elim (Option-cases (find_last_of c s)) [
  | inr (i, e) ↦ let (k, found) = find_last_of-append_left c s t i e in (suc k, rw found)
  | inl e ↦ elim (Option-cases (find_last_of c (s ++ t))) [
    | inr (k, found) ↦ (suc k, rw found)
    | inl none_there ↦ (0, ground (arith, e, none_there))
  ]
]

remove_nothing : (a : Bytes) → front a ≢ b' ' → back a ≢ b' ' → remove_first_and_last_white a ≡ a
unfolding remove_first_and_last_white
remove_nothing a h k = ground arith

between-brackets :
    (a : Bytes) → length a < 2 ^ 64 → between (b'<' ∷ (a ++ b'>' ∷ [])) 0 (suc (length a)) ≡ a
unfolding between
between-brackets a h =
    let e : (suc (length a) + 2 ^ 64 - 0 - 1) % 2 ^ 64 ≡ length a = omega arith in
    rw e (take-length a (b'>' ∷ []))

parse_brackets-brackets :
    (a : Bytes)
    → front a ≢ b' '
    → back a ≢ b' '
    → length a < 2 ^ 64
    → parse_brackets (b'<' ∷ (a ++ b'>' ∷ [])) (some 0) (some (suc (length a)))
      ≡ ok (record { name = []; address = a })
unfolding parse_brackets reduce_whitespace reduce_loop remove_first_and_last_white
parse_brackets-brackets a first last fits =
    rw (between-brackets a fits, remove_nothing a first last)

parse_found :
    (raw : Bytes) (i k : ℕ)
    → find_first_of b'@' raw ≡ some i
    → find_last_of b'.' raw ≡ some k
    → parse raw ≡ parse_brackets raw (find_first_of b'<' raw) (find_first_of b'>' raw)
unfolding parse
parse_found raw i k at dot = rw (at, dot, parse)

opens : (s : Bytes) → find_first_of b'<' (b'<' ∷ s) ≡ some 0
unfolding find_first_of
opens s = refl

-- A printed address without a name is parsed back, if it has an `@` and a dot, no `>`, no
-- space at its ends, and a length below 2 ^ 64.
pub parse-to_string :
    (a : Bytes)
    → (i j : ℕ) → find_first_of b'@' a ≡ some i
    → find_last_of b'.' a ≡ some j
    → Avoids b'>' a
    → front a ≢ b' '
    → back a ≢ b' '
    → length a < 2 ^ 64
    → parse (to_string (record { name = []; address = a })) ≡ ok (record { name = []; address = a })
unfolding to_string
parse-to_string a i j at dot gt first last fits =
    let raw : Bytes = b'<' ∷ (a ++ b'>' ∷ []) in
    let found_at : find_first_of b'@' raw ≡ some (suc i) =
      unfold find_first_of in ground (arith, find_first_of-append_left b'@' a (b'>' ∷ []) i at) in
    let (k, found_dot) = find_last_of-append_left b'.' a (b'>' ∷ []) j dot in
    parse_found raw (suc i) (suc k) found_at (unfold find_last_of in ground (arith, found_dot))
    ∙ rw (opens (a ++ b'>' ∷ []), find_first_of-append b'>' (b'<' ∷ a) [] (omega arith, gt))
        (parse_brackets-brackets a first last fits)
