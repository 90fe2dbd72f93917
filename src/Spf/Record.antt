-- ===== src/Spf/Record.antt =====
-- lib/spf/SPFRecord.src.cc: an SPF record from its text.
use fsmtp_v.Base.{
  ℕ, suc, Bool, false, ◌||◌, List, [], ◌∷◌, ◌++◌, Option, none, some, if◌then◌else◌, bit_or, map,
  take, drop, ltb, length,
}
use fsmtp_v.Base.Text.{Bytes, codes, beq, find_first_of, tolower}
use fsmtp_v.Base.Segments.{segments, trim_one}
use fsmtp_v.Smtp.Session.{has_bits}

pub data Policy : Type 0 where
  reject junk no_validation allow_all : Policy

pub record Record : Type 0 where
  pub ipv4s : List Bytes
  pub ipv6s : List Bytes
  pub mxs : List Bytes
  pub a_domains : List Bytes
  pub domains : List Bytes
  pub ptrs : List Bytes
  pub redirect : Bytes
  pub policy : Policy
  pub flags : ℕ

abbrev pub flag_allow_mx : ℕ
flag_allow_mx = 1

abbrev pub flag_allow_a : ℕ
flag_allow_a = 2

unfoldable pub new_record : Record
new_record = record {
  ipv4s = [];
  ipv6s = [];
  mxs = [];
  a_domains = [];
  domains = [];
  ptrs = [];
  redirect = [];
  policy = allow_all;
  flags = 0;
}

abbrev pub mx_records_allowed : Record → Bool
mx_records_allowed r = has_bits r.flags flag_allow_mx

abbrev pub a_records_allowed : Record → Bool
a_records_allowed r = has_bits r.flags flag_allow_a

-- In lower case, without a space at either end.
unfoldable pub clean : Bytes → Bytes
clean s = trim_one (map tolower s)

-- A word, or the same with a plus in front.
abbrev is_word : Bytes → Bytes → Bool
is_word s w = beq s w || beq s (b'+' ∷ w)

abbrev added : List Bytes → Bytes → List Bytes
added xs x = xs ++ x ∷ []

unfoldable pub parse_pair : Bytes → Bytes → Record → Record
parse_pair key val r =
    if is_word key (codes "mx")
    then record r { mxs = added r.mxs val }
    else if is_word key (codes "ptr")
    then record r { ptrs = added r.ptrs val }
    else if is_word key (codes "a")
    then record r { a_domains = added r.a_domains val }
    else if is_word key (codes "include")
    then record r { domains = added r.domains val }
    else if is_word key (codes "ip4")
    then record r { ipv4s = added r.ipv4s val }
    else if is_word key (codes "ip6")
    then record r { ipv6s = added r.ipv6s val }
    else if beq key (codes "redirect")
    then record r { redirect = val }
    else r

unfoldable pub parse_atom : Bytes → Record → Record
parse_atom atom r =
    if is_word atom (codes "mx")
    then record r { flags = bit_or r.flags flag_allow_mx }
    else if is_word atom (codes "a")
    then record r { flags = bit_or r.flags flag_allow_a }
    else if beq atom (codes "~all")
    then record r { policy = junk }
    else if beq atom (codes "-all")
    then record r { policy = reject }
    else if beq atom (codes "?all")
    then record r { policy = no_validation }
    else if beq atom (codes "+all")
    then record r { policy = allow_all }
    else r

-- `sep`: the first colon, or the first `=` where there is no colon.
unfoldable pub separator : Bytes → Option ℕ
separator seg = elim (find_first_of b':' seg) [ some i ↦ some i | none ↦ find_first_of b'=' seg ]

-- A segment; an empty one is passed over.
unfoldable pub parse_segment : Bytes → Record → Record
unfolding parse_pair parse_atom separator clean
parse_segment [] r = r
parse_segment (c ∷ seg) r = elim (separator (c ∷ seg)) [
  | some sep ↦ parse_pair (clean (take sep (c ∷ seg))) (clean (drop (suc sep) (c ∷ seg))) r
  | none ↦ parse_atom (clean (c ∷ seg)) r
]

unfoldable pub parse_segments : List Bytes → Record → Record
unfolding parse_segment
parse_segments [] r = r
parse_segments (seg ∷ segs) r = parse_segments segs (parse_segment seg r)

unfoldable pub parse : Bytes → Record → Record
unfolding parse_segments
parse raw r = parse_segments (segments b' ' raw) r

-- Whether `fromDNS` takes a text for an SPF record.
unfoldable pub is_spf : Bytes → Bool
is_spf text = if ltb (length text) 6 then false else elim (find_first_of b'v' text) [
  | none ↦ false
  | some i ↦ beq (map tolower (take 5 (drop i text))) (codes "v=spf")
]

-- `fromDNS`, from the texts of a domain: the first record, if there is one.
unfoldable pub from_texts : List Bytes → Option Record
unfolding is_spf parse new_record
from_texts [] = none
from_texts (text ∷ texts) =
    let rest = from_texts texts in if is_spf text then some (parse text new_record) else rest
