-- ===== src/Tests/ClientRun.antt =====
-- The SMTP client against concrete servers.
use fsmtp_v.Base.{true, false, List, [], ◌∷◌, none, some, ◌≡◌, ◌≢◌, refl, arith}
use fsmtp_v.Base.Text.{Bytes, codes, beq, find, find_first_of, Avoids-find_first_of, is_prefix}
use fsmtp_v.Base.Numbers.{stol, stoi, to_string}
use fsmtp_v.General.Cleanup.{reduce_whitespace, reduce_loop, remove_first_and_last_white}
use fsmtp_v.Models.EmailAddress.{EmailAddress, ok, get_domain}
use fsmtp_v.Spf.Validator.{protocol_ipv4}
use fsmtp_v.Smtp.Reply.{ehlo}
use fsmtp_v.Smtp.Response.{Config, ServerResponse, build, get_message, default_message, get_code}
use fsmtp_v.Smtp.Response.ReadBack.{ReadsBack, build-ReadsBack}
use fsmtp_v.Smtp.Client.{Env, reply, receive, read_reply, parse_response, received}
use fsmtp_v.Smtp.Client.Dialogue.{run, opened, finished, out_of_fuel, read_options, option_of}
use fsmtp_v.Smtp.Client.Dialogue.Advances.{Fits}
use fsmtp_v.Smtp.Client.Dialogue.Delivers.{Agrees, Delivered, run-Delivered}
use fsmtp_v.Smtp.Client.Dialogue.Outcome.{run-ne-out_of_fuel, run-plain, turned_away}
use fsmtp_v.Smtp.Client.Targets.{Net, Client}

abbrev alice : EmailAddress
alice = record { name = []; address = codes "alice@fannst.nl" }

abbrev carol : EmailAddress
carol = record { name = []; address = codes "carol@example.org" }

abbrev env : Env
env = record {
  client_domain = codes "mx.fannst.nl";
  domain = codes "fannst.nl";
  mail_from = alice;
  target = carol;
  transport_message = codes "Subject: hi";
  upgrade_fails = none;
  read_fails = codes "closed";
  held = λ c. 250;
}

-- A server that agrees to everything, with replies of one line and of several.
abbrev agreeing : List Bytes
agreeing =
    codes "220 mx ESMTP ready"
    ∷ codes "250-mx"
    ∷ codes "250 STARTTLS"
    ∷ codes "220 go"
    ∷ codes "250 mx"
    ∷ codes "250 ok"
    ∷ codes "250-2.1.5 ok"
    ∷ codes "250 go on"
    ∷ codes "354 data"
    ∷ codes "250 queued"
    ∷ codes "221 bye"
    ∷ []

agreeing-Agrees : Agrees agreeing
unfolding receive received read_reply parse_response find_first_of find is_prefix read_options
    option_of reduce_whitespace reduce_loop remove_first_and_last_white stoi stol
agreeing-Agrees = record {
  greeting = codes "mx ESMTP ready";
  hello_options = codes "mx" ∷ codes "STARTTLS" ∷ [];
  tls_ready = codes "go";
  tls_options = codes "mx" ∷ [];
  sender_ok = codes "ok";
  recipient_ok = codes "2.1.5 okgo on";
  data_ok = codes "data";
  message_ok = codes "queued";
  goodbye = codes "bye";
  lines1 = _;
  lines2 = _;
  lines3 = _;
  lines4 = _;
  lines5 = _;
  lines6 = _;
  lines7 = _;
  lines8 = _;
  lines9 = [];
  greets = refl;
  names_esmtp = refl;
  lists = refl;
  readies = refl;
  lists_again = refl;
  takes_sender = refl;
  takes_recipient = refl;
  takes_data = refl;
  takes_message = refl;
  leaves = refl;
}

env-Fits : Fits env
unfolding get_domain find_first_of beq
env-Fits = record {
  domain = codes "example.org";
  has_domain = refl;
  elsewhere = refl;
  upgrades = refl;
  holds = λ c. refl;
}

run-Delivered_example : Delivered env [] (run 9 env true (opened agreeing []))
run-Delivered_example = run-Delivered env agreeing [] env-Fits agreeing-Agrees

run-ne-out_of_fuel_example : run 9 env true (opened agreeing []) ≢ out_of_fuel
run-ne-out_of_fuel_example = run-ne-out_of_fuel 9 env agreeing [] (omega arith)

greeting_of_plain : receive (codes "220 mx SMTP" ∷ []) ≡ reply 220 (codes "mx SMTP") []
unfolding receive received read_reply parse_response find_first_of reduce_whitespace reduce_loop
    remove_first_and_last_white stoi stol
greeting_of_plain = refl

run-plain_example :
    run 5 env true (opened (codes "220 mx SMTP" ∷ []) [])
    ≡ finished (turned_away env (codes "mx SMTP") [] [])
unfolding find is_prefix
run-plain_example =
    run-plain 4 env (codes "220 mx SMTP" ∷ []) [] (codes "mx SMTP") [] greeting_of_plain refl

abbrev net : Net
net = record {
  ipv6 = false;
  mailer_port = 25;
  client_domain = codes "mx.fannst.nl";
  domain = codes "fannst.nl";
  records = λ domain. ok (codes "mx.example.org" ∷ []);
  resolve = λ p host. some (codes "192.0.2.1");
  sign = λ message. ok message;
  connect = λ n server. ok (record { lines = agreeing; upgrade_fails = none });
  read_fails = codes "closed";
  held = λ c. 250;
}

abbrev client : Client
client = record {
  transport_message = codes "Subject: hi";
  targets =
      record {
        servers = record { address = codes "192.0.2.1"; protocol = protocol_ipv4 } ∷ [];
        address = carol;
      }
      ∷ [];
  error_log = [];
  mail_from = alice;
}

abbrev conf : Config
conf = record { node_name = codes "n"; domain = codes "d"; date = codes "now" }

abbrev hello_response : ServerResponse
hello_response = record {
  response = ehlo;
  message = [];
  subject = codes "s";
  services = some (record { name = codes "SIZE"; sub_args = codes "9" ∷ [] } ∷ []);
}

build-ReadsBack_example : ReadsBack ehlo (codes "250-d, at your service s\r\n250 SIZE 9\r\n")
unfolding build get_message default_message get_code to_string find_first_of
build-ReadsBack_example =
    build-ReadsBack conf hello_response (codes "d, at your service s")
      (codes "250-d, at your service s\r\n250 SIZE 9\r\n") refl
      (Avoids-find_first_of 10 (codes "d, at your service s") refl)
      (
        omega arith,
        (
          (
            Avoids-find_first_of 10 (codes "SIZE") refl,
            (Avoids-find_first_of 10 (codes "9") refl, tt),
          ),
          tt,
        ),
      )
      refl
