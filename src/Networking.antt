-- ===== src/Networking.antt =====
-- lib/networking/IPv4.src.cc and lib/networking/IPv6.src.cc: addresses against the ranges of an SPF
-- record.
pub mod Ipv4
pub mod Ipv6
use fsmtp_v.Base.{
  ℕ, suc, ◌+◌, ◌-◌, ◌^◌, ◌≤◌, Bool, true, false, List, [], ◌∷◌, none, some, ltb, leb, ◌==◌,
  if◌then◌else◌, take, drop,
}
use fsmtp_v.Base.Text.{Bytes, find_first_of}
use fsmtp_v.Base.Numbers.{Stol, long, invalid_argument, out_of_range, stol}

-- A test, an exception, or undefined behaviour.
pub data Compared : Type 0 where
  answer : Bool → Compared
  throws : Compared
  undefined : Compared

-- The `int32_t` of `__parseSubnetMask`: -1 for no mask, or the length of a prefix, or another number
-- below zero. `stoi` throws outside its type.
pub data Mask : Type 0 where
  no_mask : Mask
  prefix : ℕ → Mask
  below_zero : Mask
  bad_mask : Mask

unfoldable pub mask_of : Stol → Mask
mask_of (long v) =
    if ltb v (2 ^ 31)
    then prefix v
    else if v == 2 ^ 64 - 1
    then no_mask
    else if leb (2 ^ 64 - 2 ^ 31) v
    then below_zero
    else bad_mask
mask_of invalid_argument = bad_mask
mask_of out_of_range = bad_mask

-- `__parseSubnetMask`: the mask, and the address in front of it.
unfoldable pub parse_subnet_mask : Bytes → Mask × Bytes
unfolding mask_of
parse_subnet_mask cmp = elim (find_first_of b'/' cmp) [
  | none ↦ (no_mask, cmp)
  | some sep ↦ (mask_of (stol (drop (suc sep) cmp)), take sep cmp)
]
