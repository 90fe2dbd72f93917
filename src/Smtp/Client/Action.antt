-- ===== src/Smtp/Client/Action.antt =====
-- lib/smtp/client/SMTPClientSession.src.h: the masks `_SCS_ACTION_*` of the actions performed.
use fsmtp_v.Base.{ℕ}

abbrev pub helo : ℕ
helo = 1

abbrev pub start_tls : ℕ
start_tls = 2

abbrev pub mail_from : ℕ
mail_from = 4

abbrev pub rcpt_to : ℕ
rcpt_to = 8

abbrev pub data_start : ℕ
data_start = 16

abbrev pub data_end : ℕ
data_end = 32

abbrev pub quit : ℕ
quit = 64

abbrev pub start_tls_finished : ℕ
start_tls_finished = 128
