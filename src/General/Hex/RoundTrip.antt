-- ===== src/General/Hex/RoundTrip.antt =====
-- Decoding what was encoded.
use fsmtp_v.Base.{
  ℕ, Bool, true, [], ◌∷◌, map, ◌+◌, ◌*◌, ◌/◌, ◌%◌, ◌<◌, ◌≡◌, refl, ap, ◌∙◌, ◌==◌, ==_iff, All,
  bit_and, holds_below, holds_below-test,
}
use fsmtp_v.Base.Text.{Bytes}
use fsmtp_v.General.Hex.{reverse_dict, dict, join_digits, decode, encode, encode_octet}

-- A byte with its halves exchanged.
abbrev pub swap_halves : ℕ → ℕ
swap_halves c = c % 16 * 16 + c / 16

abbrev octet_kept : ℕ → Bool
octet_kept c = join_digits (dict (bit_and c 240 / 16)) (dict (bit_and c 15)) == c

abbrev halves_swapped : ℕ → Bool
halves_swapped c = join_digits (dict (bit_and c 15)) (dict (bit_and c 240 / 16)) == swap_halves c

octet_table : holds_below octet_kept 256 ≡ true
unfolding join_digits reverse_dict dict
octet_table = refl

swap_table : holds_below halves_swapped 256 ≡ true
unfolding join_digits reverse_dict dict
swap_table = refl

-- An octet is decoded from the text that encodes it.
pub decode-encode_octet : (c : ℕ) → c < 256 → decode (encode_octet c) ≡ c ∷ []
unfolding decode encode_octet
decode-encode_octet c small =
    ap (λ x. x ∷ []) ((==_iff _ c).0 (holds_below-test octet_kept 256 c small octet_table))

-- Decoding the text that encodes a string gives each byte of the string with its halves exchanged: the
-- encoder writes the low half first, and the decoder reads the high half first.
pub decode-encode : (s : Bytes) → All (λ c. c < 256) s → decode (encode s) ≡ map swap_halves s
unfolding decode encode
decode-encode [] h = refl
decode-encode (c ∷ s) h =
    ap (λ x. x ∷ decode (encode s))
      ((==_iff _ (swap_halves c)).0 (holds_below-test halves_swapped 256 c h.0 swap_table))
    ∙ ap (◌∷◌ (swap_halves c)) (decode-encode s h.1)
