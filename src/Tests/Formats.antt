-- ===== src/Tests/Formats.antt =====
-- The texts that are printed and parsed, on concrete inputs.
use fsmtp_v.Base.{[], ◌∷◌, ◌++◌, ◌≡◌, refl, arith}
use fsmtp_v.Base.Text.{Bytes, codes, Avoids, find_first_of, find_last_of, tolower}
use fsmtp_v.Models.EmailAddress.{EmailAddress, ok, get_username, get_domain, to_string}
use fsmtp_v.Models.EmailAddress
use fsmtp_v.Models.EmailAddress.Laws.{get_username-get_domain, parse-to_string}
use fsmtp_v.Smtp.Command.{ClientCommand, ClientCommandType, keyword, build_line, parse}
use fsmtp_v.Smtp.Command.RoundTrip.{parse-build_line, parse_early_colon}

abbrev text : Bytes
text = codes "db=nstore; mailer=nerror"

abbrev address : EmailAddress
address = record { name = []; address = codes "bob@fannst.nl" }

get_username-get_domain_example :
    (domain : Bytes) × (get_domain address ≡ ok domain)
    × (address.address ≡ codes "bob" ++ b'@' ∷ domain)
    × Avoids b'@' (codes "bob")
unfolding get_username find_first_of
get_username-get_domain_example = get_username-get_domain address (codes "bob") refl

parse-to_string_example : EmailAddress.parse (to_string address) ≡ ok address
unfolding find_first_of find_last_of
parse-to_string_example =
    parse-to_string (codes "bob@fannst.nl") 3 10 refl refl (ground arith) (ground arith)
      (ground arith) (ground arith)

abbrev mail_command : ClientCommand
mail_command = record {
  command_type = ClientCommandType.mail_from;
  arguments = codes "<bob@fannst.nl>" ∷ codes "BODY=8BITMIME" ∷ [];
}

parse-build_line_example : parse (build_line mail_command) ≡ mail_command
parse-build_line_example = parse-build_line mail_command (ground arith) λ no_colon. absurd cc

parse_early_colon_example :
    (parse (codes "Ehlo" ++ b' ' ∷ (codes "[IPv6" ++ b':' ∷ codes "::1]"))).command_type
    ≡ ClientCommandType.unknown
unfolding tolower keyword
parse_early_colon_example =
    parse_early_colon ClientCommandType.ehlo (codes "Ehlo") (codes "[IPv6") (codes "::1]") refl refl
      (ground arith) (ground arith) (ground arith)

abbrev recipients : Bytes
recipients = codes "Doe, J <j@doe.nl>,bob@fannst.nl"
