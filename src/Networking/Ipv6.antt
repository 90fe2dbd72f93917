-- ===== src/Networking/Ipv6.antt =====
-- lib/networking/IPv6.src.cc. `inet_pton` is an argument.
use fsmtp_v.Base.{ℕ, ◌+◌, ◌*◌, ◌-◌, ◌/◌, ◌^◌, [], ◌∷◌, Option, none, some, leb, ◌==◌, if◌then◌else◌}
use fsmtp_v.Base.Text.{Bytes}
use fsmtp_v.Networking.{
  Compared, answer, throws, Mask, no_mask, prefix, below_zero, bad_mask, parse_subnet_mask,
}

-- `__ipv6ToBinary` of the bytes of an address.
unfoldable pub binary_loop : ℕ → Bytes → ℕ
binary_loop res [] = res
binary_loop res (byte ∷ bytes) = binary_loop (res * 2 ^ 8 + byte) bytes

unfoldable pub ipv6_to_binary : Bytes → ℕ
unfolding binary_loop
ipv6_to_binary bytes = binary_loop 0 bytes

-- `compare` of two addresses; `odd` is what the library of large numbers does with a shift by less
-- than zero, or by more than the width of its numbers.
unfoldable pub compare : Compared → Bytes → Bytes → Mask → Compared
unfolding ipv6_to_binary
compare odd address cmp no_mask = answer (ipv6_to_binary address == ipv6_to_binary cmp)
compare odd address cmp (prefix n) =
    if leb n 128
    then answer (ipv6_to_binary address / 2 ^ (128 - n) == ipv6_to_binary cmp / 2 ^ (128 - n))
    else odd
compare odd address cmp below_zero = odd
compare odd address cmp bad_mask = throws

unfoldable pub compare_parsed : Compared → Bytes → Mask → Option Bytes → Compared
unfolding compare
compare_parsed odd address bad_mask cmp = throws
compare_parsed odd address mask none = throws
compare_parsed odd address mask (some cmp) = compare odd address cmp mask

-- `compare` with a text; the mask is read first.
unfoldable pub compare_text : Compared → (Bytes → Option Bytes) → Bytes → Bytes → Compared
unfolding compare_parsed parse_subnet_mask
compare_text odd pton address cmp =
    let parts = parse_subnet_mask cmp in compare_parsed odd address (parts.0) (pton (parts.1))
