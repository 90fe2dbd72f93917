-- ===== src/Dmarc/Record/RoundTrip.antt =====
-- lib/dmarc/DMARCRecord.src.cc: a record that is written as a list of tags.
use fsmtp_v.Base.{List, [], ◌∷◌, ◌++◌, ◌≡◌, refl, arith, All, map}
use fsmtp_v.Base.Text.{Bytes, codes, Avoids, find_first_of, beq, tolower}
use fsmtp_v.Base.Segments.{segments, segments_loop, join, segments-pieces, trim_one}
use fsmtp_v.Dmarc.Record.{
  Record, done, Env, Policy, policy_none, quarantine, policy_reject, Alignment, relaxed, strict,
  ReportOptions, if_all_fail, if_any_fail, always_dkim_fail, always_spf_fail, parse_segment,
  parse_segments, and_then, parse, parse_pair, clean, key_value, parse_policy, parse_alignment,
  parse_report_options, read_pair,
}

-- A tag of a record whose values are names.
pub data Tag : Type 0 where
  p sp : Policy → Tag
  aspf adkim : Alignment → Tag
  fo : ReportOptions → Tag

policy_text : Policy → Bytes
policy_text policy_none = codes "none"
policy_text quarantine = codes "quarantine"
policy_text policy_reject = codes "reject"

alignment_text : Alignment → Bytes
alignment_text relaxed = codes "r"
alignment_text strict = codes "s"

options_text : ReportOptions → Bytes
options_text if_all_fail = codes "0"
options_text if_any_fail = codes "1"
options_text always_dkim_fail = codes "d"
options_text always_spf_fail = codes "s"

unfoldable pub tag_text : Tag → Bytes
unfolding policy_text alignment_text options_text
tag_text (p policy) = codes "p=" ++ policy_text policy
tag_text (sp policy) = codes " sp=" ++ policy_text policy
tag_text (aspf alignment) = codes " aspf=" ++ alignment_text alignment
tag_text (adkim alignment) = codes " adkim=" ++ alignment_text alignment
tag_text (fo options) = codes " fo=" ++ options_text options

unfoldable pub tag_set : Tag → Record → Record
tag_set (p policy) r = record r { policy = policy }
tag_set (sp policy) r = record r { subdomain_policy = policy }
tag_set (aspf alignment) r = record r { spf_alignment = alignment }
tag_set (adkim alignment) r = record r { dkim_alignment = alignment }
tag_set (fo options) r = record r { report_options = options }

unfoldable pub tags_set : List Tag → Record → Record
unfolding tag_set
tags_set [] r = r
tags_set (t ∷ ts) r = tags_set ts (tag_set t r)

parse_segment-tag_text :
    (env : Env) (t : Tag) (r : Record) → parse_segment env (tag_text t) r ≡ done (tag_set t r)
unfolding parse_segment parse_pair key_value find_first_of clean trim_one parse_policy
    parse_alignment parse_report_options tag_text tag_set policy_text alignment_text options_text
    beq tolower read_pair
parse_segment-tag_text env (p policy_none) r = refl
parse_segment-tag_text env (p quarantine) r = refl
parse_segment-tag_text env (p policy_reject) r = refl
parse_segment-tag_text env (sp policy_none) r = refl
parse_segment-tag_text env (sp quarantine) r = refl
parse_segment-tag_text env (sp policy_reject) r = refl
parse_segment-tag_text env (aspf relaxed) r = refl
parse_segment-tag_text env (aspf strict) r = refl
parse_segment-tag_text env (adkim relaxed) r = refl
parse_segment-tag_text env (adkim strict) r = refl
parse_segment-tag_text env (fo if_all_fail) r = refl
parse_segment-tag_text env (fo if_any_fail) r = refl
parse_segment-tag_text env (fo always_dkim_fail) r = refl
parse_segment-tag_text env (fo always_spf_fail) r = refl

tag_text-Avoids : (t : Tag) → Avoids b';' (tag_text t)
unfolding tag_text policy_text alignment_text options_text
tag_text-Avoids (p policy_none) = ground arith
tag_text-Avoids (p quarantine) = ground arith
tag_text-Avoids (p policy_reject) = ground arith
tag_text-Avoids (sp policy_none) = ground arith
tag_text-Avoids (sp quarantine) = ground arith
tag_text-Avoids (sp policy_reject) = ground arith
tag_text-Avoids (aspf relaxed) = ground arith
tag_text-Avoids (aspf strict) = ground arith
tag_text-Avoids (adkim relaxed) = ground arith
tag_text-Avoids (adkim strict) = ground arith
tag_text-Avoids (fo if_all_fail) = ground arith
tag_text-Avoids (fo if_any_fail) = ground arith
tag_text-Avoids (fo always_dkim_fail) = ground arith
tag_text-Avoids (fo always_spf_fail) = ground arith

tags_text-Avoids : (ts : List Tag) → All (Avoids b';') (map tag_text ts)
tags_text-Avoids [] = tt
tags_text-Avoids (t ∷ ts) = (tag_text-Avoids t, tags_text-Avoids ts)

parse_segments-tags_set :
    (env : Env) (ts : List Tag) (r : Record)
    → parse_segments env (map tag_text ts) r ≡ done (tags_set ts r)
unfolding parse_segments and_then tags_set
parse_segments-tags_set env [] r = refl
parse_segments-tags_set env (t ∷ ts) r =
    rw (parse_segments, parse_segment-tag_text env t r)
      (parse_segments-tags_set env ts (tag_set t r))

-- The text of a record.
unfoldable pub record_text : List Tag → Bytes
unfolding join tag_text
record_text ts = join b';' (map tag_text ts)

-- A record that is written as a list of tags is read back: each tag sets its field, in the order of
-- the text, so that a later tag wins.
pub parse-record_text :
    (env : Env) (ts : List Tag) (r : Record) → parse env (record_text ts) r ≡ done (tags_set ts r)
unfolding parse segments segments_loop find_first_of join record_text parse_segments parse_segment
    and_then tags_set
parse-record_text env [] r = refl
parse-record_text env (t ∷ ts) r =
    rw (segments-pieces b';' (tag_text t) (map tag_text ts) (tags_text-Avoids (t ∷ ts)))
      (parse_segments-tags_set env (t ∷ ts) r)
