-- ===== src/Tests/Packets.antt =====
-- DNS headers, and hexadecimal texts on concrete inputs.
use fsmtp_v.Base.{true, [], ◌∷◌, map, ◌≡◌, arith}
use fsmtp_v.Base.Text.{codes}
use fsmtp_v.General.Hex.{encode, decode}
use fsmtp_v.General.Hex.RoundTrip.{swap_halves, decode-encode}
use fsmtp_v.Dns.Header.{
  DnsHeader, set_type, set_aa, set_truncated, set_recursion_desired, set_recursion_available,
}
use fsmtp_v.Dns.Header.Fields.{view, view-setters}

decode-encode_example : decode (encode (codes "Hi")) ≡ map swap_halves (codes "Hi")
decode-encode_example = decode-encode (codes "Hi") (ground arith)

abbrev header : DnsHeader
header = record { buffer = 0 ∷ 1 ∷ 133 ∷ 128 ∷ 0 ∷ 1 ∷ 0 ∷ 2 ∷ []; length_used = 8 }

view-setters_example :
    (view (set_type header true) ≡ record (view header) { is_query = true })
    × (view (set_aa header true) ≡ record (view header) { authoritative = true })
    × (view (set_truncated header true) ≡ record (view header) { truncated = true })
    × (view (set_recursion_desired header true) ≡ record (view header) { desired = true })
    × (view (set_recursion_available header true) ≡ record (view header) { available = true })
view-setters_example = view-setters header true (omega arith)

abbrev inverse : DnsHeader
inverse = record { buffer = 0 ∷ 1 ∷ 141 ∷ 128 ∷ 0 ∷ 1 ∷ 0 ∷ 2 ∷ []; length_used = 8 }
