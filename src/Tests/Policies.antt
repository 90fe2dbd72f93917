-- ===== src/Tests/Policies.antt =====
-- Sender policies on concrete records.
use fsmtp_v.Base.{ℕ, [], ◌∷◌, none, some, true, ◌≡◌, ◌↔◌, refl, arith}
use fsmtp_v.Base.Text.{Bytes, codes, beq, find_first_of, tolower}
use fsmtp_v.Base.Segments.{segments, trim_one}
use fsmtp_v.Networking.{answer, throws, undefined, prefix, parse_subnet_mask}
use fsmtp_v.Networking.Ipv4.{s_addr, compare, compare_text}
use fsmtp_v.Networking.Ipv4.Range.{compare-prefix}
use fsmtp_v.Spf.Record.{from_texts}
use fsmtp_v.Spf.Validator.{Env, protocol_ipv4, out_of_fuel, from_dns, validate_record, validate}
use fsmtp_v.Spf.Validator.Sound.{Passes, validate-Passes}
use fsmtp_v.Spf.Validator.Loops.{validate-out_of_fuel}
use fsmtp_v.Smtp.Session.{has_bits}

-- A mask of 32 bits is undefined.
compare_32 : compare (s_addr 1 2 3 4) (s_addr 1 2 3 4) (prefix 32) ≡ undefined
unfolding compare
compare_32 = refl

compare-prefix_example :
    ((compare (s_addr 192 0 2 1) (s_addr 192 168 7 9) (prefix 24) ≡ answer true)
      ↔ (◌≡◌ {A = ℕ} 192 192))
    × ((compare (s_addr 192 0 2 1) (s_addr 192 168 7 9) (prefix 16) ≡ answer true)
        ↔ ((◌≡◌ {A = ℕ} 192 192) × (◌≡◌ {A = ℕ} 0 168)))
    × ((compare (s_addr 192 0 2 1) (s_addr 192 168 7 9) (prefix 8) ≡ answer true)
        ↔ ((◌≡◌ {A = ℕ} 192 192) × (◌≡◌ {A = ℕ} 0 168) × (◌≡◌ {A = ℕ} 2 7)))
compare-prefix_example =
    compare-prefix 192 0 2 1 192 168 7 9 (ground arith) (ground arith) (ground arith) (ground arith)
      (ground arith) (ground arith) (ground arith) (ground arith)

-- A DNS with one text for every domain.
abbrev dns : Bytes → Env
dns text = record {
  texts = λ domain. some (text ∷ []);
  mx_data = λ domain. none;
  resolve_hostname = λ name. none;
  resolve_all = λ address name. none;
  reverse = λ address. none;
  pton4 = λ name. some 67305985;
  pton6 = λ name. none;
  odd_shift = throws;
}

abbrev listing : Bytes
listing = codes "v=spf1 ip4:1.2.3.4 -all"

validate-Passes_example : Passes (dns listing) protocol_ipv4 (codes "1.2.3.4") (codes "a.b")
unfolding validate validate_record from_dns from_texts beq find_first_of tolower segments trim_one
    has_bits compare_text parse_subnet_mask
validate-Passes_example =
    validate-Passes 1 (dns listing) protocol_ipv4 (codes "1.2.3.4") (codes "a.b")
      (codes "IPv4 [1.2.3.4] listed in a.b") refl

abbrev circular : Bytes
circular = codes "v=spf1 redirect=a.b"

validate-out_of_fuel_example :
    validate 9 (dns circular) protocol_ipv4 (codes "1.2.3.4") (codes "a.b") ≡ out_of_fuel
unfolding from_dns beq find_first_of tolower segments trim_one
validate-out_of_fuel_example =
    validate-out_of_fuel (dns circular) protocol_ipv4 (codes "1.2.3.4") (λ domain. Unit {0})
      (λ domain h. (_, refl, ground arith, tt)) 9 (codes "a.b") tt
