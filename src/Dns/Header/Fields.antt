-- ===== src/Dns/Header/Fields.antt =====
-- The bit fields of the header: each is read as it was written, and the others stay.
use fsmtp_v.Base.{
  ℕ, zero, suc, Bool, true, false, not, List, [], ◌∷◌, ◌-◌, ◌<◌, ◌≡◌, ◌≢◌, refl, ap, ◌∙◌, arith,
  get_or, set, length, bit_and, bit_or,
}
use fsmtp_v.Smtp.Session.{has_bits}
use fsmtp_v.Smtp.Session.Laws.{
  has_bits-set, has_bits-set_other, has_bits-clear, has_bits-clear_other,
}
use fsmtp_v.Dns.Header.{
  DnsHeader, byte, write_bit, read_bit, get_type, set_type, get_aa, set_aa, get_truncated,
  set_truncated, get_recursion_desired, set_recursion_desired, get_recursion_available,
  set_recursion_available,
}

pub get_or-set : (xs : List ℕ) (i v d : ℕ) → i < length xs → get_or (set xs i v) i d ≡ v
get_or-set [] i v d h = absurd (omega arith)
get_or-set (x ∷ xs) zero v d h = refl
get_or-set (x ∷ xs) (suc i) v d h = get_or-set xs i v d (omega arith)

pub get_or-set_other : (xs : List ℕ) (i j v d : ℕ) → i ≢ j → get_or (set xs i v) j d ≡ get_or xs j d
get_or-set_other [] i j v d h = refl
get_or-set_other (x ∷ xs) zero zero v d h = absurd (h refl)
get_or-set_other (x ∷ xs) zero (suc j) v d h = refl
get_or-set_other (x ∷ xs) (suc i) zero v d h = refl
get_or-set_other (x ∷ xs) (suc i) (suc j) v d h = get_or-set_other xs i j v d (omega (arith, h))

-- A flag reads as it was written.
read_bit-write_bit :
    (h : DnsHeader) (i m : ℕ) (on : Bool)
    → i < length h.buffer
    → m ≢ 0
    → bit_and (255 - m) m ≡ 0
    → read_bit (write_bit h i m on) i m ≡ on
read_bit-write_bit h i m true bound n c =
    rw (get_or-set h.buffer i (bit_or (byte h i) m) 0 bound) (has_bits-set (byte h i) m)
read_bit-write_bit h i m false bound n c =
    rw (get_or-set h.buffer i (bit_and (byte h i) (255 - m)) 0 bound)
      (has_bits-clear (byte h i) (255 - m) m c n)

-- A flag of another byte stays.
read_bit-write_bit_elsewhere :
    (h : DnsHeader) (i j m k : ℕ) (on : Bool)
    → i ≢ j
    → read_bit (write_bit h i m on) j k ≡ read_bit h j k
read_bit-write_bit_elsewhere h i j m k true n =
    ap (λ v. has_bits v k) (get_or-set_other h.buffer i j (bit_or (byte h i) m) 0 n)
read_bit-write_bit_elsewhere h i j m k false n =
    ap (λ v. has_bits v k) (get_or-set_other h.buffer i j (bit_and (byte h i) (255 - m)) 0 n)

-- Another flag of the same byte stays.
read_bit-write_bit_apart :
    (h : DnsHeader) (i m k : ℕ) (on : Bool)
    → i < length h.buffer
    → bit_and m k ≡ 0
    → bit_and (255 - m) k ≡ k
    → read_bit (write_bit h i m on) i k ≡ read_bit h i k
read_bit-write_bit_apart h i m k true bound apart covered =
    ap (λ v. has_bits v k) (get_or-set h.buffer i (bit_or (byte h i) m) 0 bound)
    ∙ has_bits-set_other (byte h i) m k apart
read_bit-write_bit_apart h i m k false bound apart covered =
    ap (λ v. has_bits v k) (get_or-set h.buffer i (bit_and (byte h i) (255 - m)) 0 bound)
    ∙ has_bits-clear_other (byte h i) (255 - m) k covered

-- What the five flags of a header say.
pub record FlagView : Type 0 where
  pub is_query : Bool
  pub authoritative : Bool
  pub truncated : Bool
  pub desired : Bool
  pub available : Bool

abbrev pub view : DnsHeader → FlagView
view h = record {
  is_query = get_type h;
  authoritative = get_aa h;
  truncated = get_truncated h;
  desired = get_recursion_desired h;
  available = get_recursion_available h;
}

-- Two flags of byte 2, and a flag of byte 2 with that of byte 3.
keeps :
    (h : DnsHeader) (m k : ℕ) (on : Bool)
    → 3 < length h.buffer
    → bit_and m k ≡ 0
    → bit_and (255 - m) k ≡ k
    → read_bit (write_bit h 2 m on) 2 k ≡ read_bit h 2 k
keeps h m k on bound = read_bit-write_bit_apart h 2 m k on (omega (arith, bound))

away : (h : DnsHeader) (m : ℕ) (on : Bool) → read_bit (write_bit h 2 m on) 3 128 ≡ read_bit h 3 128
away h m on = read_bit-write_bit_elsewhere h 2 3 m 128 on (omega arith)

own :
    (h : DnsHeader) (m : ℕ) (on : Bool)
    → 3 < length h.buffer
    → m ≢ 0
    → bit_and (255 - m) m ≡ 0
    → read_bit (write_bit h 2 m on) 2 m ≡ on
own h m on bound = read_bit-write_bit h 2 m on (omega (arith, bound))

not_twice : (b : Bool) → not (not b) ≡ b
not_twice true = refl
not_twice false = refl

-- In a buffer of at least four bytes each setter of a flag sets that flag to its argument, and leaves
-- the other four as they are.
pub view-setters :
    (h : DnsHeader) (on : Bool)
    → 3 < length h.buffer
    → (view (set_type h on) ≡ record (view h) { is_query = on })
      × (view (set_aa h on) ≡ record (view h) { authoritative = on })
      × (view (set_truncated h on) ≡ record (view h) { truncated = on })
      × (view (set_recursion_desired h on) ≡ record (view h) { desired = on })
      × (view (set_recursion_available h on) ≡ record (view h) { available = on })
unfolding get_type set_type get_aa set_aa get_truncated set_truncated get_recursion_desired
    set_recursion_desired get_recursion_available set_recursion_available
view-setters h on bound = (
  rw
      (
        own h 128 (not on) bound (omega arith) refl,
        keeps h 128 4 (not on) bound refl refl,
        keeps h 128 2 (not on) bound refl refl,
        keeps h 128 1 (not on) bound refl refl,
        away h 128 (not on),
        not_twice on,
      )
      refl,
  rw
      (
        own h 4 on bound (omega arith) refl,
        keeps h 4 128 on bound refl refl,
        keeps h 4 2 on bound refl refl,
        keeps h 4 1 on bound refl refl,
        away h 4 on,
      )
      refl,
  rw
      (
        own h 2 on bound (omega arith) refl,
        keeps h 2 128 on bound refl refl,
        keeps h 2 4 on bound refl refl,
        keeps h 2 1 on bound refl refl,
        away h 2 on,
      )
      refl,
  rw
      (
        own h 1 on bound (omega arith) refl,
        keeps h 1 128 on bound refl refl,
        keeps h 1 4 on bound refl refl,
        keeps h 1 2 on bound refl refl,
        away h 1 on,
      )
      refl,
  rw
      (
        read_bit-write_bit h 3 128 on bound (omega arith) refl,
        read_bit-write_bit_elsewhere h 3 2 128 128 on (omega arith),
        read_bit-write_bit_elsewhere h 3 2 128 4 on (omega arith),
        read_bit-write_bit_elsewhere h 3 2 128 2 on (omega arith),
        read_bit-write_bit_elsewhere h 3 2 128 1 on (omega arith),
      )
      refl,
)
