-- ===== src/Networking/Ipv4/Range.antt =====
-- Which addresses the comparison takes for one range.
use fsmtp_v.Base.{ℕ, ◌<◌, true, ◌≡◌, ◌↔◌, arith}
use fsmtp_v.Networking.{answer, prefix}
use fsmtp_v.Networking.Ipv4.{s_addr, compare}

-- The bytes that the comparison looks at: for a prefix of 24 bits the first one alone, and for one of
-- 8 bits the first three, where the prefix has as many bytes as its bits say; only 16 bits are right.
pub compare-prefix :
    (a b c d a' b' c' d' : ℕ)
    → a < 256
    → b < 256
    → c < 256
    → d < 256
    → a' < 256
    → b' < 256
    → c' < 256
    → d' < 256
    → ((compare (s_addr a b c d) (s_addr a' b' c' d') (prefix 24) ≡ answer true) ↔ (a ≡ a'))
      × ((compare (s_addr a b c d) (s_addr a' b' c' d') (prefix 16) ≡ answer true)
          ↔ ((a ≡ a') × (b ≡ b')))
      × ((compare (s_addr a b c d) (s_addr a' b' c' d') (prefix 8) ≡ answer true)
          ↔ ((a ≡ a') × (b ≡ b') × (c ≡ c')))
unfolding compare
compare-prefix a b c d a' b' c' d' ha hb hc hd ha' hb' hc' hd' =
    (ground arith, ground arith, ground arith)
