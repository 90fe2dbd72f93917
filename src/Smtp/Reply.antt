-- ===== src/Smtp/Reply.antt =====
-- lib/smtp/Response.src.h: the responses that the server writes, each with the text and the
-- pointer argument that the handler hands to `ServerResponse`.
use fsmtp_v.Base.Text.{Bytes}

pub data ResponseType : Type 0 where
  greeting ehlo helo mail_from rcpt_to data_start data_end quit_goodbye : ResponseType
  syntax_err order_err invalid_command start_tls rec_not_local auth_success : ResponseType
  auth_fail relay_fail help_resp auth_not_allowed spam_alert su_acc su_denied : ResponseType
  fcapa_resp spf_reject message_too_large : ResponseType

-- The `c_Services` of a response: none, or the list for a plain or a secured connection.
pub data Services : Type 0 where
  no_services plain_services secure_services : Services

-- `c_Message` and `c_U`.
pub record Reply : Type 0 where
  pub response : ResponseType
  pub message : Bytes
  pub subject : Bytes
  pub services : Services
