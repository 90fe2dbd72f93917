-- ===== src/Smtp/Client/Flag.antt =====
-- lib/smtp/client/SMTPClientSession.src.h: the masks `_SCS_FLAG_*` of the flag word.
use fsmtp_v.Base.{ℕ}

abbrev pub esmtp : ℕ
esmtp = 1

abbrev pub starttls : ℕ
starttls = 2

abbrev pub chunking : ℕ
chunking = 4

abbrev pub pipelining : ℕ
pipelining = 8

abbrev pub eight_bit_mime : ℕ
eight_bit_mime = 16

abbrev pub enhanced_status_codes : ℕ
enhanced_status_codes = 32
