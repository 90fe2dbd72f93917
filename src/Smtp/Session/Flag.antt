-- ===== src/Smtp/Session/Flag.antt =====
-- lib/smtp/server/SMTPServerSession.src.h: the masks `_SMTP_SERV_SESSION_*` of the flag word.
use fsmtp_v.Base.{ℕ}

abbrev pub auth : ℕ
auth = 1

abbrev pub ssl : ℕ
ssl = 2

abbrev pub from_local : ℕ
from_local = 4

abbrev pub relay : ℕ
relay = 8

abbrev pub su : ℕ
su = 16
