-- ===== src/Spf/Validator.antt =====
-- lib/spf/SPFValidator.src.cc: whether a domain's records allow an address to send. The calls for
-- redirections and inclusions are bounded by fuel, which may run out: the code has no bound.
pub mod Loops
pub mod Permits
pub mod Sound
use fsmtp_v.Base.{
  ℕ, zero, suc, Bool, true, false, List, [], ◌∷◌, ◌++◌, Option, none, some, ◌==◌, ltb,
  if◌then◌else◌, length, drop, ◌-◌,
}
use fsmtp_v.Base.Text.{Bytes, codes, beq, find_first_of}
use fsmtp_v.Networking.{Compared, answer, throws, undefined}
use fsmtp_v.Networking
use fsmtp_v.Networking.Ipv4
use fsmtp_v.Networking.Ipv6
use fsmtp_v.Spf.Record.{Record, mx_records_allowed, a_records_allowed, from_texts}

-- `m_Protocol` with the address that is validated.
pub data Address : Type 0 where
  ipv4 : ℕ → Address
  ipv6 : Bytes → Address

pub data Protocol : Type 0 where
  protocol_ipv4 protocol_ipv6 : Protocol

-- The DNS, the parsers of addresses, and what shifts of large numbers do out of range. `none` is an
-- exception, but for the parsers, which find no address.
pub record Env : Type 0 where
  pub texts : Bytes → Option (List Bytes)
  pub mx_data : Bytes → Option (List Bytes)
  pub resolve_hostname : Bytes → Option Bytes
  -- `resolveAllFromHostname` for the family of the address
  pub resolve_all : Address → Bytes → Option (List Bytes)
  pub reverse : Address → Option Bytes
  pub pton4 : Bytes → Option ℕ
  pub pton6 : Bytes → Option Bytes
  pub odd_shift : Compared

-- How a check ends. `m_Result` is set where a check returns true, and every caller then returns true:
-- the details stand for it.
pub data Verdict : Type 0 where
  allowed : Bytes → Verdict
  denied thrown undefined_behaviour out_of_fuel : Verdict

-- `try { if (check) return true; } catch (...) {}`, and what follows.
unfoldable pub or_else : Verdict → Verdict → Verdict
or_else (allowed details) next = allowed details
or_else denied next = next
or_else thrown next = next
or_else undefined_behaviour next = undefined_behaviour
or_else out_of_fuel next = out_of_fuel

-- A comparison under a `try`, or under none, in a loop that goes on with `next`.
unfoldable pub if_same : Compared → Bytes → Verdict → Verdict
if_same (answer true) details next = allowed details
if_same (answer false) details next = next
if_same throws details next = thrown
if_same undefined details next = undefined_behaviour

unfoldable pub listed : Bytes → Bytes → Bytes → Bytes
listed family range query = elim (find_first_of b'/' range) [
  | some i ↦ codes "part of " ++ family ++ codes " subnet [" ++ range ++ codes "] for " ++ query
  | none ↦ family ++ codes " [" ++ range ++ codes "] listed in " ++ query
]

unfoldable pub validate_ipv4 : Env → Bytes → ℕ → List Bytes → Verdict
unfolding or_else if_same listed
validate_ipv4 env query addr [] = denied
validate_ipv4 env query addr (range ∷ ranges) =
    or_else
      (if_same (Ipv4.compare_text env.pton4 addr range) (listed (codes "IPv4") range query) denied)
      (validate_ipv4 env query addr ranges)

unfoldable pub validate_ipv6 : Env → Bytes → Bytes → List Bytes → Verdict
unfolding or_else if_same listed
validate_ipv6 env query addr [] = denied
validate_ipv6 env query addr (range ∷ ranges) =
    or_else
      (if_same (Ipv6.compare_text env.odd_shift env.pton6 addr range)
        (listed (codes "IPv6") range query) denied)
      (validate_ipv6 env query addr ranges)

-- `SPFValidator::compare`.
unfoldable pub compare : Env → Address → Bytes → Compared
compare env (ipv4 a) cmp = Ipv4.compare_text env.pton4 a cmp
compare env (ipv6 a) cmp = Ipv6.compare_text env.odd_shift env.pton6 a cmp

abbrev in_brackets : Bytes → Bytes → Bytes → Bytes → Bytes
in_brackets family data_text middle domain = family ++ codes " [" ++ data_text ++ middle ++ domain

-- The data of an MX record: an address of either family, or a name.
unfoldable pub mx_verdict :
    Env → Address → Bytes → Bytes → Option ℕ → Option Bytes → Verdict → Verdict
unfolding if_same compare
mx_verdict env (ipv4 a) domain text (some x) y next =
    if_same (Ipv4.compare x a Networking.no_mask)
      (in_brackets (codes "IPv4") text (codes "] in MX of ") domain) next
mx_verdict env (ipv6 a) domain text (some x) y next = next
mx_verdict env (ipv4 a) domain text none (some y) next = next
mx_verdict env (ipv6 a) domain text none (some y) next =
    if_same (Ipv6.compare env.odd_shift y a Networking.no_mask)
      (in_brackets (codes "IPv6") text (codes "] in MX of ") domain) next
mx_verdict env a domain text none none next = elim (env.resolve_hostname text) [
  | none ↦ thrown
  | some resolved ↦
      if_same (compare env a resolved)
        (in_brackets (codes "IPvN") resolved (codes "] in resolved MX of ") domain) next
]

unfoldable pub validate_mx_data : Env → Address → Bytes → List Bytes → Verdict
unfolding mx_verdict
validate_mx_data env a domain [] = denied
validate_mx_data env a domain (text ∷ texts) =
    mx_verdict env a domain text (env.pton4 text) (env.pton6 text)
      (validate_mx_data env a domain texts)

unfoldable pub validate_mx : Env → Address → Bytes → Verdict
unfolding validate_mx_data
validate_mx env a domain = elim (env.mx_data domain) [
  | none ↦ thrown
  | some texts ↦ validate_mx_data env a domain texts
]

unfoldable pub a_details : Address → Bytes → Bytes → Bytes
a_details (ipv4 a) addr query = in_brackets (codes "IPv4") addr (codes "] in A of ") query
a_details (ipv6 a) addr query = in_brackets (codes "IPv6") addr (codes "] in AAAA of ") query

unfoldable pub validate_addresses : Env → Address → Bytes → List Bytes → Verdict
unfolding if_same compare a_details
validate_addresses env a query [] = denied
validate_addresses env a query (addr ∷ addrs) =
    if_same (compare env a addr) (a_details a addr query) (validate_addresses env a query addrs)

unfoldable pub validate_a : Env → Address → Bytes → Verdict
unfolding validate_addresses
validate_a env a query = elim (env.resolve_all a query) [
  | none ↦ thrown
  | some addrs ↦ validate_addresses env a query addrs
]

unfoldable pub has_extension : Bytes → Bytes → Bool
has_extension name reverse =
    if ltb (length reverse) (length name)
    then false
    else beq (drop (length reverse - length name) reverse) name

unfoldable pub validate_names : Bytes → List Bytes → Verdict
unfolding has_extension
validate_names reverse [] = denied
validate_names reverse (name ∷ names) =
    let rest = validate_names reverse names in
    if has_extension name reverse
    then allowed (codes "Reverse lookup " ++ reverse ++ codes " has extension " ++ name)
    else rest

unfoldable pub validate_ptr : Env → Address → List Bytes → Verdict
unfolding validate_names
validate_ptr env a names = elim (env.reverse a) [
  | none ↦ thrown
  | some reverse ↦ validate_names reverse names
]

-- A check for each domain of a list, each under its `try`.
unfoldable pub any_of : (Bytes → Verdict) → List Bytes → Verdict
unfolding or_else
any_of check [] = denied
any_of check (domain ∷ domains) = or_else (check domain) (any_of check domains)

unfoldable pub validate_ranges : Env → Bytes → Address → Record → Verdict
unfolding validate_ipv4 validate_ipv6
validate_ranges env query (ipv4 a) r = validate_ipv4 env query a r.ipv4s
validate_ranges env query (ipv6 a) r = validate_ipv6 env query a r.ipv6s

-- The checks of one record, up to the inclusions. The MX check for the domains of the record is made
-- with the query.
unfoldable pub validate_record : Env → Bytes → Address → Record → Verdict
unfolding validate_ranges or_else validate_mx validate_a any_of validate_ptr
validate_record env query a r = or_else (validate_ranges env query a r) (
    or_else (if mx_records_allowed r then validate_mx env a query else denied) (
      or_else (if a_records_allowed r then validate_a env a query else denied) (
        or_else (any_of (λ domain. validate_mx env a query) r.mxs) (
          or_else (any_of (validate_a env a) r.a_domains)
            (if ltb 0 (length r.ptrs) then validate_ptr env a r.ptrs else denied)))))

unfoldable pub parse_address : Env → Protocol → Bytes → Option Address
parse_address env protocol_ipv4 cmp = elim (env.pton4 cmp) [ none ↦ none | some a ↦ some (ipv4 a) ]
parse_address env protocol_ipv6 cmp = elim (env.pton6 cmp) [ none ↦ none | some a ↦ some (ipv6 a) ]

-- `fromDNS`.
unfoldable pub from_dns : Env → Bytes → Option Record
unfolding from_texts
from_dns env query = elim (env.texts query) [ none ↦ none | some texts ↦ from_texts texts ]

-- A record, with the validation of another domain.
unfoldable pub with_address : Env → (Bytes → Verdict) → Bytes → Record → Option Address → Verdict
unfolding or_else validate_record any_of
with_address env again query r none = denied
with_address env again query r (some a) =
    or_else (validate_record env query a r) (any_of again r.domains)

unfoldable pub with_record :
    Env → Protocol → (Bytes → Verdict) → Bytes → Bytes → Option Record → Verdict
unfolding with_address parse_address
with_record env p again query cmp none = thrown
with_record env p again query cmp (some r) =
    let here = with_address env again query r (parse_address env p cmp) in
    if ltb 0 (length r.redirect) then again r.redirect else here

-- `validate`.
unfoldable pub validate : ℕ → Env → Protocol → Bytes → Bytes → Verdict
unfolding with_record from_dns
validate zero env p cmp query = out_of_fuel
validate (suc fuel) env p cmp query =
    with_record env p (validate fuel env p cmp) query cmp (from_dns env query)

-- `m_Result` behind `safeValidate`, its type and its details, and the text of `getResultString`.
unfoldable pub result_string : Verdict → Option Bytes
result_string (allowed details) = some (codes "pass (" ++ details ++ codes ")")
result_string denied = some (codes "fail (Sender not authorized)")
result_string thrown = some (codes "neutral (Failed to validate SPF)")
result_string undefined_behaviour = none
result_string out_of_fuel = none
