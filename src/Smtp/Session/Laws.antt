-- ===== src/Smtp/Session/Laws.antt =====
-- The flag word: a mask that is set is seen, the others stay as they are.
use fsmtp_v.Base.{ℕ, true, false, ◌≡◌, ◌≢◌, arith, bit_and, bit_or}
use fsmtp_v.Base.Bits.{
  bit_and-bit_or_self, bit_and-bit_or_keeps, bit_and-bit_or_apart, bit_and-bit_and_covered,
  bit_and-bit_and_none,
}
use fsmtp_v.Smtp.Session.{has_bits}

pub has_bits-set : (word mask : ℕ) → has_bits (bit_or word mask) mask ≡ true
unfolding has_bits
has_bits-set word mask = ground (arith, bit_and-bit_or_self word mask)

pub has_bits-set_keeps :
    (word mask other : ℕ) → has_bits word other ≡ true → has_bits (bit_or word mask) other ≡ true
unfolding has_bits
has_bits-set_keeps word mask other h = ground (arith, bit_and-bit_or_keeps word mask other)

-- A mask apart from the one that is set reads as before.
pub has_bits-set_other :
    (word mask other : ℕ)
    → bit_and mask other ≡ 0
    → has_bits (bit_or word mask) other ≡ has_bits word other
unfolding has_bits
has_bits-set_other word mask other h = ground (arith, bit_and-bit_or_apart word mask other)

-- What `&=` with a complement clears, and what it leaves.
pub has_bits-clear :
    (word cover mask : ℕ)
    → bit_and cover mask ≡ 0
    → mask ≢ 0
    → has_bits (bit_and word cover) mask ≡ false
unfolding has_bits
has_bits-clear word cover mask h n = ground (arith, bit_and-bit_and_none word cover mask)

pub has_bits-clear_other :
    (word cover mask : ℕ)
    → bit_and cover mask ≡ mask
    → has_bits (bit_and word cover) mask ≡ has_bits word mask
unfolding has_bits
has_bits-clear_other word cover mask h = ground (arith, bit_and-bit_and_covered word cover mask)
