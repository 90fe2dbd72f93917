-- ===== src/Networking/Ipv4.antt =====
-- lib/networking/IPv4.src.cc, on a machine that stores the low byte of a number first. `inet_pton` is
-- an argument.
pub mod Range
use fsmtp_v.Base.{
  ℕ, ◌+◌, ◌*◌, ◌%◌, ◌^◌, Bool, List, [], ◌∷◌, Option, none, some, ltb, ◌==◌, if◌then◌else◌,
}
use fsmtp_v.Base.Text.{Bytes}
use fsmtp_v.Networking.{
  Compared, answer, throws, undefined, Mask, no_mask, prefix, below_zero, bad_mask,
  parse_subnet_mask,
}

-- `s_addr` of the address `a.b.c.d`.
abbrev pub s_addr : ℕ → ℕ → ℕ → ℕ → ℕ
s_addr a b c d = a + 2 ^ 8 * b + 2 ^ 16 * c + 2 ^ 24 * d

-- `compare` of two addresses: a shift of 32 bits by 32 or more, or by less than zero, is undefined.
unfoldable pub compare : ℕ → ℕ → Mask → Compared
compare address cmp no_mask = answer (address == cmp)
compare address cmp (prefix n) =
    if ltb n 32 then answer ((address * 2 ^ n) % 2 ^ 32 == (cmp * 2 ^ n) % 2 ^ 32) else undefined
compare address cmp below_zero = undefined
compare address cmp bad_mask = throws

-- `compare` with a text; the mask is read first.
unfoldable pub compare_parsed : ℕ → Mask → Option ℕ → Compared
unfolding compare
compare_parsed address bad_mask cmp = throws
compare_parsed address mask none = throws
compare_parsed address mask (some cmp) = compare address cmp mask

unfoldable pub compare_text : (Bytes → Option ℕ) → ℕ → Bytes → Compared
unfolding compare_parsed parse_subnet_mask
compare_text pton address cmp =
    let parts = parse_subnet_mask cmp in compare_parsed address (parts.0) (pton (parts.1))
