-- ===== src/Dmarc/Record/Bounds.antt =====
-- lib/dmarc/DMARCRecord.src.cc: the bounds of the numbers in a record.
use fsmtp_v.Base.{◌≤◌, List, [], ◌∷◌, Option, none, some, ◌≡◌, arith}
use mathlib.Core.Path.{subst}
use fsmtp_v.Base.Text.{Bytes}
use fsmtp_v.Base.Segments.{segments}
use fsmtp_v.Base.Numbers.{Stol, long, invalid_argument, out_of_range, stol}
use fsmtp_v.Dmarc.Record.{
  Record, Parsed, done, stopped, Env, percentage, interval, read_fail_targets,
  read_forensic_targets, parse_targets, parse_pair, parse_segment, parse_segments, and_then, parse,
  from_texts, from_dns, from_answer, new_record, key_value, read_pair,
}

-- A percentage, and an interval of no less than the least one.
pub record IsBounded (r : Record) : Type 0 where
  percent : r.filtering_percentage ≤ 100
  least : 1000 ≤ r.report_interval

abbrev Leaves : Parsed → Type 0
Leaves (done r) = IsBounded r
Leaves (stopped r) = IsBounded r

percentage-le : (v : Stol) → percentage v ≤ 100
unfolding percentage
percentage-le (long v) = ground arith
percentage-le invalid_argument = omega arith
percentage-le out_of_range = omega arith

interval-ge : (v : Stol) → 1000 ≤ interval v
unfolding interval
interval-ge (long v) = ground arith
interval-ge invalid_argument = omega arith
interval-ge out_of_range = omega arith

read_fail_targets-Leaves :
    (r : Record) (targets : Option (List Bytes))
    → IsBounded r
    → Leaves (read_fail_targets r targets)
unfolding read_fail_targets
read_fail_targets-Leaves r none h = h
read_fail_targets-Leaves r (some targets) h = record { percent = h.percent; least = h.least }

read_forensic_targets-Leaves :
    (r : Record) (targets : Option (List Bytes))
    → IsBounded r
    → Leaves (read_forensic_targets r targets)
unfolding read_forensic_targets
read_forensic_targets-Leaves r none h = h
read_forensic_targets-Leaves r (some targets) h = record { percent = h.percent; least = h.least }

parse_pair-Leaves :
    (env : Env) (key val : Bytes) (r : Record) → IsBounded r → Leaves (parse_pair env key val r)
unfolding parse_pair
parse_pair-Leaves env key val r h = ground (
  arith,
  percentage-le (stol val),
  interval-ge (stol val),
  read_fail_targets-Leaves r (parse_targets val) h,
  read_forensic_targets-Leaves r (parse_targets val) h,
  h.percent,
  h.least,
)

read_pair-Leaves :
    (env : Env) (r : Record) (pair : Option (Bytes × Bytes))
    → IsBounded r
    → Leaves (read_pair env r pair)
unfolding read_pair
read_pair-Leaves env r none h = h
read_pair-Leaves env r (some (key, val)) h = parse_pair-Leaves env key val r h

parse_segment-Leaves :
    (env : Env) (seg : Bytes) (r : Record) → IsBounded r → Leaves (parse_segment env seg r)
unfolding parse_segment
parse_segment-Leaves env [] r h = h
parse_segment-Leaves env (c ∷ seg) r h = read_pair-Leaves env r (key_value b'=' (c ∷ seg)) h

and_then-Leaves :
    (p : Parsed) (next : Record → Parsed)
    → Leaves p
    → ((r : Record) → IsBounded r → Leaves (next r))
    → Leaves (and_then p next)
unfolding and_then
and_then-Leaves (done r) next h keeps = keeps r h
and_then-Leaves (stopped r) next h keeps = h

parse_segments-Leaves :
    (env : Env) (segs : List Bytes) (r : Record) → IsBounded r → Leaves (parse_segments env segs r)
unfolding parse_segments
parse_segments-Leaves env [] r h = h
parse_segments-Leaves env (seg ∷ segs) r h =
    and_then-Leaves (parse_segment env seg r) (parse_segments env segs)
      (parse_segment-Leaves env seg r h) (parse_segments-Leaves env segs)

parse-Leaves : (env : Env) (raw : Bytes) (r : Record) → IsBounded r → Leaves (parse env raw r)
unfolding parse
parse-Leaves env raw r h = parse_segments-Leaves env (segments b';' raw) r h

abbrev Found : Option Record → Type 0
Found none = Unit
Found (some r) = IsBounded r

from_texts-Found :
    (env : Env) (texts : List Bytes) (r : Record) → IsBounded r → Found (from_texts env texts r)
unfolding from_texts
from_texts-Found env [] r h = tt
from_texts-Found env (text ∷ texts) r h =
    (elim (parse env text r)
        as (λ x.
          Leaves x
          → Found (elim x [ done read ↦ some read | stopped left ↦ from_texts env texts left ])) [
            | done read ↦ λ kept. kept
            | stopped left ↦ λ kept. from_texts-Found env texts left kept
          ])
      (parse-Leaves env text r h)

new_record-IsBounded : IsBounded new_record
unfolding new_record
new_record-IsBounded = record { percent = omega arith; least = omega arith }

from_answer-Found : (env : Env) (answer : Option (List Bytes)) → Found (from_answer env answer)
unfolding from_answer
from_answer-Found env none = tt
from_answer-Found env (some texts) = from_texts-Found env texts new_record new_record-IsBounded

-- A record that is found has a percentage of at most 100 and an interval of at least 1000 seconds,
-- whatever the texts of the domain are.
pub from_dns-IsBounded :
    (env : Env) (query : Bytes) (r : Record) → from_dns env query ≡ some r → IsBounded r
unfolding from_dns
from_dns-IsBounded env query r h = subst Found h (from_answer-Found env (env.texts query))
