-- ===== src/Smtp/Response/NoFeed.antt =====
-- The parts of a response that have no line feed: its codes, and the lines of its services.
use fsmtp_v.Base.{ℕ, ◌<◌, List, [], ◌∷◌, ◌++◌, none, ◌≡◌, refl, arith, All, All-append, ◌≢◌}
use fsmtp_v.Base.Text.{Bytes, Avoids, Avoids-find_first_of, find_first_of}
use fsmtp_v.Base.Numbers.{long, stoi, to_string}
use fsmtp_v.Smtp.Reply.{ResponseType}
use fsmtp_v.Smtp.Response.{
  Service, get_code, get_enhanced_code, separator, service_line, sub_args_text,
}
use fsmtp_v.Smtp.Response.Lines.{IsCode, service_lines}

-- No line feed, at which the client ends a line.
abbrev pub NoFeed : Bytes → Type 0
NoFeed = Avoids 10

pub NoFeed-append : (s t : Bytes) → NoFeed s → NoFeed t → NoFeed (s ++ t)
NoFeed-append s t hs ht = All-append (λ x. x ≢ 10) s t hs ht

-- The three digits of the code of a type.
pub record Spelled (code : ℕ) : Type 0 where
  pub x : ℕ
  pub y : ℕ
  pub z : ℕ
  pub is : IsCode x y z code
  pub spelled : to_string code ≡ x ∷ y ∷ z ∷ []
  pub no_feed : NoFeed (x ∷ y ∷ z ∷ [])

digits-Spelled :
    (x y z code : ℕ)
    → to_string code ≡ x ∷ y ∷ z ∷ []
    → stoi (x ∷ y ∷ z ∷ []) ≡ long code
    → 32 < x
    → 32 < y
    → 32 < z
    → Spelled code
digits-Spelled x y z code spelled means a b c = record {
  x = x;
  y = y;
  z = z;
  is = record { first = omega arith; second = omega arith; third = omega arith; means = means };
  spelled = spelled;
  no_feed = (omega arith, (omega arith, (omega arith, tt)));
}

pub get_code-Spelled : (t : ResponseType) → Spelled (get_code t)
unfolding get_code stoi to_string
get_code-Spelled ResponseType.spam_alert =
    digits-Spelled 53 53 52 554 refl refl (omega arith) (omega arith) (omega arith)
get_code-Spelled ResponseType.greeting =
    digits-Spelled 50 50 48 220 refl refl (omega arith) (omega arith) (omega arith)
get_code-Spelled ResponseType.ehlo =
    digits-Spelled 50 53 48 250 refl refl (omega arith) (omega arith) (omega arith)
get_code-Spelled ResponseType.helo =
    digits-Spelled 50 53 48 250 refl refl (omega arith) (omega arith) (omega arith)
get_code-Spelled ResponseType.mail_from =
    digits-Spelled 50 53 48 250 refl refl (omega arith) (omega arith) (omega arith)
get_code-Spelled ResponseType.rcpt_to =
    digits-Spelled 50 53 48 250 refl refl (omega arith) (omega arith) (omega arith)
get_code-Spelled ResponseType.data_start =
    digits-Spelled 51 53 52 354 refl refl (omega arith) (omega arith) (omega arith)
get_code-Spelled ResponseType.data_end =
    digits-Spelled 50 53 48 250 refl refl (omega arith) (omega arith) (omega arith)
get_code-Spelled ResponseType.quit_goodbye =
    digits-Spelled 50 50 49 221 refl refl (omega arith) (omega arith) (omega arith)
get_code-Spelled ResponseType.syntax_err =
    digits-Spelled 53 48 49 501 refl refl (omega arith) (omega arith) (omega arith)
get_code-Spelled ResponseType.order_err =
    digits-Spelled 53 48 51 503 refl refl (omega arith) (omega arith) (omega arith)
get_code-Spelled ResponseType.invalid_command =
    digits-Spelled 53 48 50 502 refl refl (omega arith) (omega arith) (omega arith)
get_code-Spelled ResponseType.start_tls =
    digits-Spelled 50 50 48 220 refl refl (omega arith) (omega arith) (omega arith)
get_code-Spelled ResponseType.rec_not_local =
    digits-Spelled 53 53 49 551 refl refl (omega arith) (omega arith) (omega arith)
get_code-Spelled ResponseType.auth_success =
    digits-Spelled 50 51 53 235 refl refl (omega arith) (omega arith) (omega arith)
get_code-Spelled ResponseType.auth_fail =
    digits-Spelled 53 51 48 530 refl refl (omega arith) (omega arith) (omega arith)
get_code-Spelled ResponseType.relay_fail =
    digits-Spelled 53 53 49 551 refl refl (omega arith) (omega arith) (omega arith)
get_code-Spelled ResponseType.help_resp =
    digits-Spelled 50 49 52 214 refl refl (omega arith) (omega arith) (omega arith)
get_code-Spelled ResponseType.auth_not_allowed =
    digits-Spelled 53 53 49 551 refl refl (omega arith) (omega arith) (omega arith)
get_code-Spelled ResponseType.su_acc =
    digits-Spelled 54 48 48 600 refl refl (omega arith) (omega arith) (omega arith)
get_code-Spelled ResponseType.su_denied =
    digits-Spelled 54 53 49 651 refl refl (omega arith) (omega arith) (omega arith)
get_code-Spelled ResponseType.fcapa_resp =
    digits-Spelled 54 48 49 601 refl refl (omega arith) (omega arith) (omega arith)
get_code-Spelled ResponseType.spf_reject =
    digits-Spelled 53 53 48 550 refl refl (omega arith) (omega arith) (omega arith)
get_code-Spelled ResponseType.message_too_large =
    digits-Spelled 53 53 54 556 refl refl (omega arith) (omega arith) (omega arith)

enhanced_feed : (t : ResponseType) → find_first_of 10 (get_enhanced_code t) ≡ none
unfolding get_enhanced_code find_first_of
enhanced_feed ResponseType.spam_alert = refl
enhanced_feed ResponseType.greeting = refl
enhanced_feed ResponseType.ehlo = refl
enhanced_feed ResponseType.helo = refl
enhanced_feed ResponseType.mail_from = refl
enhanced_feed ResponseType.rcpt_to = refl
enhanced_feed ResponseType.data_start = refl
enhanced_feed ResponseType.data_end = refl
enhanced_feed ResponseType.quit_goodbye = refl
enhanced_feed ResponseType.syntax_err = refl
enhanced_feed ResponseType.order_err = refl
enhanced_feed ResponseType.invalid_command = refl
enhanced_feed ResponseType.start_tls = refl
enhanced_feed ResponseType.rec_not_local = refl
enhanced_feed ResponseType.auth_success = refl
enhanced_feed ResponseType.auth_fail = refl
enhanced_feed ResponseType.relay_fail = refl
enhanced_feed ResponseType.help_resp = refl
enhanced_feed ResponseType.auth_not_allowed = refl
enhanced_feed ResponseType.su_acc = refl
enhanced_feed ResponseType.su_denied = refl
enhanced_feed ResponseType.fcapa_resp = refl
enhanced_feed ResponseType.spf_reject = refl
enhanced_feed ResponseType.message_too_large = refl

pub enhanced-NoFeed : (t : ResponseType) → NoFeed (get_enhanced_code t)
enhanced-NoFeed t = Avoids-find_first_of 10 (get_enhanced_code t) (enhanced_feed t)

abbrev pub ServiceNoFeed : Service → Type 0
ServiceNoFeed s = NoFeed s.name × All NoFeed s.sub_args

sub_args_text-NoFeed : (args : List Bytes) → All NoFeed args → NoFeed (sub_args_text args)
unfolding sub_args_text
sub_args_text-NoFeed [] h = tt
sub_args_text-NoFeed (arg ∷ args) h =
    (omega arith, NoFeed-append arg (sub_args_text args) (h.0) (sub_args_text-NoFeed args (h.1)))

separator-NoFeed : (later : List Service) → separator later ≢ 10
separator-NoFeed [] = omega arith
separator-NoFeed (s ∷ ss) = omega arith

pub service_lines-NoFeed :
    (code : ℕ) (ss : List Service)
    → NoFeed (to_string code)
    → All ServiceNoFeed ss
    → All NoFeed (service_lines code ss)
unfolding service_lines service_line
service_lines-NoFeed code [] c h = tt
service_lines-NoFeed code (s ∷ ss) c h =
    let args = sub_args_text-NoFeed s.sub_args (h.0.1) in
    let text = NoFeed-append s.name (sub_args_text s.sub_args) (h.0.0) args in
    (
      NoFeed-append (to_string code) _ c (separator-NoFeed ss, text),
      service_lines-NoFeed code ss c (h.1),
    )
