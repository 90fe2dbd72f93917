-- ===== src/Dmarc/Record.antt =====
-- lib/dmarc/DMARCRecord.src.cc: a DMARC record from its text.
use fsmtp_v.Base.{
  ℕ, suc, ◌+◌, ◌-◌, ◌^◌, Bool, true, false, List, [], ◌∷◌, ◌++◌, Option, none, some, if◌then◌else◌,
  map, take, drop, ltb, leb,
}
use fsmtp_v.Base.Text.{Bytes, codes, beq, find_first_of, tolower}
use fsmtp_v.Base.Segments.{segments, trim_one}
use fsmtp_v.Base.Numbers.{Stol, long, invalid_argument, out_of_range, stol}
pub mod Bounds
pub mod RoundTrip

pub data Policy : Type 0 where
  policy_none quarantine policy_reject : Policy

pub data Alignment : Type 0 where
  relaxed strict : Alignment

pub data ReportOptions : Type 0 where
  if_all_fail if_any_fail always_dkim_fail always_spf_fail : ReportOptions

-- The version, the format of the reports and the type of a target have one value each. A target is
-- its data.
pub record Record : Type 0 where
  pub policy : Policy
  pub subdomain_policy : Policy
  pub dkim_alignment : Alignment
  pub spf_alignment : Alignment
  pub report_options : ReportOptions
  pub filtering_percentage : ℕ
  pub report_interval : ℕ
  pub fail_report_targets : List Bytes
  pub forensic_report_targets : List Bytes

-- A record behind a parser that ends, or one as far as it was read before the exception.
pub data Parsed : Type 0 where
  done : Record → Parsed
  stopped : Record → Parsed

-- What the code does not fix: the alignment that the function without a `return` leaves behind, and
-- the texts of a domain, none where the query throws.
pub record Env : Type 0 where
  pub left_behind : Bytes → Alignment
  pub texts : Bytes → Option (List Bytes)

abbrev pub report_interval_default : ℕ
report_interval_default = 86400

abbrev pub report_filter_perc_default : ℕ
report_filter_perc_default = 0

unfoldable pub new_record : Record
new_record = record {
  policy = policy_none;
  subdomain_policy = policy_none;
  dkim_alignment = relaxed;
  spf_alignment = relaxed;
  report_options = if_all_fail;
  filtering_percentage = report_filter_perc_default;
  report_interval = report_interval_default;
  fail_report_targets = [];
  forensic_report_targets = [];
}

unfoldable pub parse_policy : Bytes → Policy
parse_policy p =
    if beq p (codes "reject")
    then policy_reject
    else if beq p (codes "quarantine")
    then quarantine
    else policy_none

unfoldable pub parse_alignment : Env → Bytes → Alignment
parse_alignment env a =
    if beq a (codes "s") then strict else if beq a (codes "r") then relaxed else env.left_behind a

unfoldable pub parse_report_options : Bytes → ReportOptions
parse_report_options f =
    if beq f (codes "0")
    then if_all_fail
    else if beq f (codes "1")
    then if_any_fail
    else if beq f (codes "d")
    then always_dkim_fail
    else if beq f (codes "s")
    then always_spf_fail
    else if_all_fail

-- In lower case, without a space at either end.
unfoldable pub clean : Bytes → Bytes
clean s = trim_one (map tolower s)

-- The key and the value at the two sides of a separator; none for an exception.
unfoldable pub key_value : ℕ → Bytes → Option (Bytes × Bytes)
unfolding clean
key_value sep seg = elim (find_first_of sep seg) [
  | none ↦ none
  | some i ↦ some (clean (take i seg), clean (drop (suc i) seg))
]

abbrev add_target : Bytes × Bytes → List Bytes → List Bytes
add_target pair targets = if beq (pair.0) (codes "mailto") then targets ++ pair.1 ∷ [] else targets

-- The segments of a list of targets; an empty one is passed over.
unfoldable pub targets_loop : List Bytes → List Bytes → Option (List Bytes)
unfolding key_value
targets_loop [] targets = some targets
targets_loop ([] ∷ segs) targets = targets_loop segs targets
targets_loop ((c ∷ seg) ∷ segs) targets = elim (key_value b':' (c ∷ seg)) [
  | none ↦ none
  | some pair ↦ targets_loop segs (add_target pair targets)
]

unfoldable pub parse_targets : Bytes → Option (List Bytes)
unfolding targets_loop
parse_targets raw = targets_loop (segments b',' raw) []

-- `stoi`, on a machine whose `int` has 32 bits, and the two bounds; the default behind an exception.
unfoldable pub percentage : Stol → ℕ
percentage (long v) =
    if ltb v (2 ^ 31)
    then (if ltb 100 v then 100 else v)
    else if leb (2 ^ 64 - 2 ^ 31) v
    then 0
    else report_filter_perc_default
percentage invalid_argument = report_filter_perc_default
percentage out_of_range = report_filter_perc_default

-- `stol` into a `uint64_t`, and the bound; the default behind an exception.
unfoldable pub interval : Stol → ℕ
interval (long v) = if ltb v 1000 then 1000 else v
interval invalid_argument = report_interval_default
interval out_of_range = report_interval_default

unfoldable pub read_fail_targets : Record → Option (List Bytes) → Parsed
read_fail_targets r none = stopped r
read_fail_targets r (some targets) = done (record r { fail_report_targets = targets })

unfoldable pub read_forensic_targets : Record → Option (List Bytes) → Parsed
read_forensic_targets r none = stopped r
read_forensic_targets r (some targets) = done (record r { forensic_report_targets = targets })

unfoldable pub parse_pair : Env → Bytes → Bytes → Record → Parsed
unfolding parse_policy parse_alignment parse_report_options parse_targets percentage interval
    read_fail_targets read_forensic_targets
parse_pair env key val r =
    if beq key (codes "v")
    then done r
    else if beq key (codes "p")
    then done (record r { policy = parse_policy val })
    else if beq key (codes "sp")
    then done (record r { subdomain_policy = parse_policy val })
    else if beq key (codes "pct")
    then done (record r { filtering_percentage = percentage (stol val) })
    else if beq key (codes "aspf")
    then done (record r { spf_alignment = parse_alignment env val })
    else if beq key (codes "adkim")
    then done (record r { dkim_alignment = parse_alignment env val })
    else if beq key (codes "ruf")
    then read_forensic_targets r (parse_targets val)
    else if beq key (codes "rua")
    then read_fail_targets r (parse_targets val)
    else if beq key (codes "rf")
    then done r
    else if beq key (codes "ri")
    then done (record r { report_interval = interval (stol val) })
    else if beq key (codes "fo")
    then done (record r { report_options = parse_report_options val })
    else done r

unfoldable pub read_pair : Env → Record → Option (Bytes × Bytes) → Parsed
unfolding parse_pair
read_pair env r none = stopped r
read_pair env r (some (key, val)) = parse_pair env key val r

-- A segment; an empty one is passed over.
unfoldable pub parse_segment : Env → Bytes → Record → Parsed
unfolding read_pair key_value
parse_segment env [] r = done r
parse_segment env (c ∷ seg) r = read_pair env r (key_value b'=' (c ∷ seg))

unfoldable pub and_then : Parsed → (Record → Parsed) → Parsed
and_then (done r) next = next r
and_then (stopped r) next = stopped r

unfoldable pub parse_segments : Env → List Bytes → Record → Parsed
unfolding parse_segment and_then
parse_segments env [] r = done r
parse_segments env (seg ∷ segs) r = and_then (parse_segment env seg r) (parse_segments env segs)

unfoldable pub parse : Env → Bytes → Record → Parsed
unfolding parse_segments
parse env raw r = parse_segments env (segments b';' raw) r

-- The texts of a domain up to the first that can be read; what an earlier one left stays.
unfoldable pub from_texts : Env → List Bytes → Record → Option Record
unfolding parse
from_texts env [] r = none
from_texts env (text ∷ texts) r = elim (parse env text r) [
  | done read ↦ some read
  | stopped left ↦ from_texts env texts left
]

unfoldable pub from_answer : Env → Option (List Bytes) → Option Record
unfolding from_texts new_record
from_answer env none = none
from_answer env (some texts) = from_texts env texts new_record

-- `fromDNS`; none for an exception.
unfoldable pub from_dns : Env → Bytes → Option Record
unfolding from_answer
from_dns env query = from_answer env (env.texts query)
