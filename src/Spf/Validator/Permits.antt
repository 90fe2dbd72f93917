-- ===== src/Spf/Validator/Permits.antt =====
-- What of a record lets an address send.
pub mod Checks
use fsmtp_v.Base.{
  ℕ, suc, true, false, List, [], ◌∷◌, ◌++◌, Option, none, some, Option-cases, Bool-cases, ◌≡◌, inl,
  inr, refl, sym, ap, ◌∙◌, Bool, ltb, length, ◌<◌, arith, get_elem?, ◌⊎◌, if◌then◌else◌, ◌-◌, take,
  drop,
}
use fsmtp_v.Base.Text.{Bytes, beq, beq_iff, take-drop}
use fsmtp_v.Networking.{Compared, answer, throws, undefined}
use fsmtp_v.Networking
use fsmtp_v.Networking.Ipv4
use fsmtp_v.Networking.Ipv6
use fsmtp_v.Spf.Record.{Record, mx_records_allowed, a_records_allowed}
use fsmtp_v.Spf.Validator.{
  Env, Address, ipv4, ipv6, Verdict, allowed, denied, thrown, undefined_behaviour, out_of_fuel,
  or_else, if_same, any_of, validate_ipv4, validate_ipv6, validate_ranges, compare, mx_verdict,
  validate_mx_data, validate_mx, validate_addresses, validate_a, has_extension, validate_names,
  validate_ptr, validate_record,
}

-- The address is the one of a text or is in its range, as the comparisons of `Networking` tell.
abbrev pub Matches : Env → Address → Bytes → Type 0
Matches env (ipv4 a) text = Ipv4.compare_text env.pton4 a text ≡ answer true
Matches env (ipv6 a) text = Ipv6.compare_text env.odd_shift env.pton6 a text ≡ answer true

-- The address is the one of a mail exchanger, which is an address of its family or a name.
pub data IsHost (env : Env) : Address → Bytes → Type 0 where
  as_ipv4 :
      {a x : ℕ} {text : Bytes}
      → env.pton4 text ≡ some x
      → Ipv4.compare x a Networking.no_mask ≡ answer true
      → IsHost env (ipv4 a) text
  as_ipv6 :
      {a x text : Bytes}
      → env.pton6 text ≡ some x
      → Ipv6.compare env.odd_shift x a Networking.no_mask ≡ answer true
      → IsHost env (ipv6 a) text
  resolved :
      {a : Address} {text host : Bytes}
      → env.pton4 text ≡ none
      → env.pton6 text ≡ none
      → env.resolve_hostname text ≡ some host
      → Matches env a host
      → IsHost env a text

-- One of a list of texts has a property.
abbrev pub SomeOf : List Bytes → (Bytes → Type 0) → Type 0
SomeOf texts P = (k : ℕ) × (text : Bytes) × (get_elem? texts k ≡ some text) × P text

pub later : (u : Bytes) (us : List Bytes) (P : Bytes → Type 0) → SomeOf us P → SomeOf (u ∷ us) P
later u us P (k, text, at, h) = (suc k, text, at, h)

abbrev pub HasMx : Env → Address → Bytes → Type 0
HasMx env a domain =
    (texts : List Bytes) × (env.mx_data domain ≡ some texts) × SomeOf texts (IsHost env a)

abbrev pub HasAddress : Env → Address → Bytes → Type 0
HasAddress env a domain =
    (texts : List Bytes) × (env.resolve_all a domain ≡ some texts) × SomeOf texts (Matches env a)

abbrev pub EndsIn : Bytes → Bytes → Type 0
EndsIn reverse name = (front : Bytes) × (reverse ≡ front ++ name)

abbrev pub ranges_of : Address → Record → List Bytes
ranges_of (ipv4 a) r = r.ipv4s
ranges_of (ipv6 a) r = r.ipv6s

-- What of the record of a domain lets the address send. A record that names domains for `mx:` lets
-- the mail exchangers of the queried domain send, as the code has it.
pub data Permits (env : Env) (query : Bytes) (a : Address) (r : Record) : Type 0 where
  by_range : SomeOf (ranges_of a r) (Matches env a) → Permits env query a r
  by_mx : mx_records_allowed r ≡ true → HasMx env a query → Permits env query a r
  by_named_mx : 0 < length r.mxs → HasMx env a query → Permits env query a r
  by_a : a_records_allowed r ≡ true → HasAddress env a query → Permits env query a r
  by_named_a : SomeOf r.a_domains (HasAddress env a) → Permits env query a r
  by_ptr :
      (reverse : Bytes)
      → env.reverse a ≡ some reverse
      → SomeOf r.ptrs (EndsIn reverse)
      → Permits env query a r

-- Which of two checks allows.
pub or_else-allowed :
    (v w : Verdict) (details : Bytes)
    → or_else v w ≡ allowed details
    → ((d : Bytes) × (v ≡ allowed d)) ⊎ (w ≡ allowed details)
unfolding or_else
or_else-allowed (allowed d) w details h = inl (d, refl)
or_else-allowed denied w details h = inr h
or_else-allowed thrown w details h = inr h
or_else-allowed undefined_behaviour w details h = absurd cc
or_else-allowed out_of_fuel w details h = absurd cc

pub in_range :
    (c : Compared) (text details : Bytes) (next : Verdict)
    → or_else (if_same c text denied) next ≡ allowed details
    → (c ≡ answer true) ⊎ (next ≡ allowed details)
unfolding or_else if_same
in_range (answer true) text details next h = inl refl
in_range (answer false) text details next h = inr h
in_range throws text details next h = inr h
in_range undefined text details next h = absurd cc

pub has_extension-EndsIn :
    (name reverse : Bytes) → has_extension name reverse ≡ true → EndsIn reverse name
unfolding has_extension
has_extension-EndsIn name reverse h = elim (Bool-cases (ltb (length reverse) (length name))) [
  | inl e ↦ absurd (ground (arith, e, h))
  | inr e ↦
      let n = length reverse - length name in
      let same : beq (drop n reverse) name ≡ true = ground (arith, e, h) in
      (
        take n reverse,
        sym (take-drop n reverse)
            ∙ ap (◌++◌ (take n reverse)) ((beq_iff (drop n reverse) name).0 same),
      )
]

pub any_of-allowed :
    (check : Bytes → Verdict) (domains : List Bytes) (details : Bytes)
    → any_of check domains ≡ allowed details
    → SomeOf domains λ domain. (d : Bytes) × (check domain ≡ allowed d)
unfolding any_of
any_of-allowed check [] details h = absurd cc
any_of-allowed check (domain ∷ domains) details h =
    elim (or_else-allowed (check domain) (any_of check domains) details h) [
      | inl (d, e) ↦ (0, domain, refl, (d, e))
      | inr e ↦ later domain domains _ (any_of-allowed check domains details e)
    ]

pub if_same-allowed :
    (c : Compared) (text details : Bytes) (next : Verdict)
    → if_same c text next ≡ allowed details
    → (c ≡ answer true) ⊎ (next ≡ allowed details)
unfolding if_same
if_same-allowed (answer true) text details next h = inl refl
if_same-allowed (answer false) text details next h = inr h
if_same-allowed throws text details next h = absurd cc
if_same-allowed undefined text details next h = absurd cc
