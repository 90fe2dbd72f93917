-- ===== src/Tests/Reports.antt =====
-- DMARC records and the first lines of HTTP requests on concrete texts.
use fsmtp_v.Base.{[], ◌∷◌, some, ◌≡◌, refl, arith}
use fsmtp_v.Base.Text.{codes, beq, find_first_of, tolower}
use fsmtp_v.Base.Segments.{segments, trim_one, join}
use fsmtp_v.Base.Numbers.{stol}
use fsmtp_v.Http.{
  get, http11, unset, parse_head, method_from_string, method_to_string, version_to_string,
}
use fsmtp_v.Http.RoundTrip.{head_text, parse_head-head_text}
use fsmtp_v.Models.EmailAddress.{ok}
use fsmtp_v.Dmarc.Record.{
  Env, Record, done, strict, policy_none, quarantine, policy_reject, always_spf_fail, new_record,
  from_dns, parse,
}
use fsmtp_v.Dmarc.Record.Bounds.{IsBounded, from_dns-IsBounded}
use fsmtp_v.Dmarc.Record.RoundTrip.{p, sp, adkim, fo, record_text, tags_set, parse-record_text}

-- A text that cannot be read to its end in front of one that can, which leaves no more than its
-- policy; and an interval below zero.
abbrev reports : Env
reports = record {
  left_behind = λ a. strict;
  texts = λ domain. some (codes "p=reject; pct=120; spf" ∷ codes "v=DMARC1; ri=-5" ∷ []);
}

abbrev found : Record
found = record new_record {
  policy = policy_reject;
  filtering_percentage = 100;
  report_interval = 18446744073709551611;
}

from_dns_leak : from_dns reports (codes "a.b") ≡ some found
unfolding from_dns beq find_first_of tolower segments trim_one stol
from_dns_leak = refl

from_dns-IsBounded_example : IsBounded found
from_dns-IsBounded_example = from_dns-IsBounded reports (codes "a.b") found from_dns_leak

parse-record_text_example :
    parse reports (codes "p=reject; sp=quarantine; adkim=s; fo=s;p=none") new_record
    ≡ done (
        tags_set
          (p policy_reject ∷ sp quarantine ∷ adkim strict ∷ fo always_spf_fail ∷ p policy_none ∷ [])
          new_record)
unfolding record_text join
parse-record_text_example =
    parse-record_text reports
      (p policy_reject ∷ sp quarantine ∷ adkim strict ∷ fo always_spf_fail ∷ p policy_none ∷ [])
      new_record

-- A line without a version leaves it unset.
parse_head_short :
    parse_head (codes "GET /") ≡ ok (record unset { method = some get; uri = codes "/" })
unfolding parse_head find_first_of beq tolower method_from_string
parse_head_short = refl

parse_head-head_text_example :
    parse_head (codes "GET /a?b HTTP/1.1")
    ≡ ok (record { method = some get; version = some http11; uri = codes "/a?b" })
unfolding head_text method_to_string version_to_string
parse_head-head_text_example = parse_head-head_text get (codes "/a?b") http11 (ground arith)
