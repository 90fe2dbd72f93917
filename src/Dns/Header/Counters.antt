-- ===== src/Dns/Header/Counters.antt =====
-- The counters of the header.
use fsmtp_v.Base.{
  ℕ, zero, suc, List, [], ◌∷◌, ◌+◌, ◌/◌, ◌%◌, ◌^◌, ◌<◌, ◌≤◌, ◌≡◌, ◌≢◌, ◌⊎◌, refl, sym, arith,
  get_or, set, length, ◌∙◌,
}
use fsmtp_v.Dns.Header.{DnsHeader, byte, get_count, set_count}
use fsmtp_v.Dns.Header.Fields.{get_or-set, get_or-set_other}

length-set : (xs : List ℕ) (i v : ℕ) → length (set xs i v) ≡ length xs
length-set [] i v = refl
length-set (x ∷ xs) zero v = refl
length-set (x ∷ xs) (suc i) v = omega (arith, length-set xs i v)

-- A counter of sixteen bits is read as it was written, where its two bytes stand in the buffer, and a
-- counter that shares no byte with it stays as it is.
pub get_count-set_count :
    (h : DnsHeader) (i j c : ℕ)
    → c < 2 ^ 16
    → i + 1 < length h.buffer
    → (i + 2 ≤ j) ⊎ (j + 2 ≤ i)
    → (get_count (set_count h i c) i ≡ c) × (get_count (set_count h i c) j ≡ get_count h j)
unfolding get_count set_count
get_count-set_count h i j c small bound apart =
    let once = set h.buffer i (c / 256 % 256) in
    let fits : i + 1 < length once = omega (arith, bound, length-set h.buffer i (c / 256 % 256)) in
    let high : get_or (set once (i + 1) (c % 256)) i 0 ≡ c / 256 % 256 =
      get_or-set_other once (i + 1) i (c % 256) 0 (omega arith)
      ∙ get_or-set h.buffer i (c / 256 % 256) 0 (omega (arith, bound)) in
    let low = get_or-set once (i + 1) (c % 256) 0 fits in
    let same : (k : ℕ) → k ≢ i → k ≢ i + 1 → get_or (set once (i + 1) (c % 256)) k 0 ≡ byte h k =
      λ k m n.
        get_or-set_other once (i + 1) k (c % 256) 0 (λ p. n (sym p))
        ∙ get_or-set_other h.buffer i k (c / 256 % 256) 0 (λ p. m (sym p)) in
    (
      omega (arith, high, low, small),
      omega (
        arith,
        same j (omega (arith, apart)) (omega (arith, apart)),
        same (j + 1) (omega (arith, apart)) (omega (arith, apart)),
      ),
    )
