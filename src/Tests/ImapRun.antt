-- ===== src/Tests/ImapRun.antt =====
-- The IMAP server on concrete lines.
use fsmtp_v.Base.{true, false, List, [], ◌∷◌, none, ◌≡◌, ◌≢◌, refl, arith}
use fsmtp_v.Base.Text.{Bytes, codes, find_first_of, find_last_of}
use fsmtp_v.Base.Numbers.{digits_value}
use fsmtp_v.General.Cleanup.{reduce_whitespace, remove_first_and_last_white, remove_string_quotes}
use fsmtp_v.Models.Account.{AccountShortcut, Query, found, empty_query}
use fsmtp_v.Models.EmailAddress.{EmailAddress, ok, get_domain, get_username}
use fsmtp_v.Models.EmailAddress
use fsmtp_v.Imap.Lexer.{Token, lparen, rparen, quote, wsp, colon, other, number, tokens, lex}
use fsmtp_v.Imap.Parser.{Arguments, empty, push_back, atom, string, int32, range, Argument}
use fsmtp_v.Imap.Parser
use fsmtp_v.Imap.Parser.Written.{nothing, space, item, pair, word, parens}
use fsmtp_v.Imap.Parser.Written.RoundTrip.{parse-Written}
use fsmtp_v.Imap.Command.{CommandType, Command, command, out_of_fuel, get_type}
use fsmtp_v.Imap.Command
use fsmtp_v.Imap.Command.Total.{parse-ne-out_of_fuel}
use fsmtp_v.Imap.Response.{Mailbox, build_list}
use fsmtp_v.Imap.Conn.{new_session, flag_logged_in, get_flag, Env, Conn, no, thrown, send}
use fsmtp_v.Imap.Handlers.{login, list, first_two, text_of, full_user}
use fsmtp_v.Imap.Server.{handler}
use fsmtp_v.Imap.Server.Bypass.{Known, rejected, list-rejected}
use fsmtp_v.Imap.Server.Verified.{Stays, LoggedIn, handler-Stays}

-- `(fast 12:3)`
abbrev listed : Arguments
listed =
    push_back empty (Argument.list (push_back (push_back empty (atom (codes "fast"))) (range 12 3)))

abbrev listed_tokens : List Token
listed_tokens = rparen ∷ other (codes "fast") ∷ wsp ∷ number 12 ∷ colon ∷ number 3 ∷ lparen ∷ []

lex_listed : lex (codes "(fast 12:3)") ≡ tokens listed_tokens
unfolding lex digits_value
lex_listed = refl

-- A string loses the zeros in front of its numbers.
lex_zeros :
    lex (codes "\"a 007\"") ≡ tokens (quote ∷ other (codes "a") ∷ wsp ∷ number 7 ∷ quote ∷ [])
unfolding lex digits_value
lex_zeros = refl

-- A range up to `*` loses the number that it starts from.
parse_star :
    Parser.parse (number 2 ∷ colon ∷ other (codes "*") ∷ [])
    ≡ Parser.ok (push_back empty (range (Parser.minus_one) (Parser.minus_one)))
unfolding Parser.parse
parse_star = refl

-- A colon behind the last number reads behind the tokens.
parse_colon : Parser.parse (number 2 ∷ colon ∷ []) ≡ Parser.undefined
unfolding Parser.parse
parse_colon = refl

-- A closing parenthesis alone is no argument.
parse_closing : Parser.parse (lparen ∷ []) ≡ Parser.not_implemented
unfolding Parser.parse
parse_closing = refl

parse-Written_example : Parser.parse listed_tokens ≡ Parser.ok listed
parse-Written_example =
    parse-Written listed listed_tokens (item nothing (parens (pair (space (item nothing word)))))
      (ground arith)

parse-ne-out_of_fuel_example : Command.parse (codes "a1 SELECT (((") ≢ out_of_fuel
parse-ne-out_of_fuel_example = parse-ne-out_of_fuel (codes "a1 SELECT (((")

abbrev bob : AccountShortcut
bob = record { bucket = 1; domain = codes "fannst.nl"; username = codes "bob"; uuid = 7 }

abbrev inbox : List Mailbox
inbox = record { flags = 0; mailbox_path = codes "INBOX" } ∷ []

-- One account, with what is stored for its password; no password is right.
abbrev env : Query Bytes → Env
env stored = record {
  domain = codes "fannst.nl";
  local_domain = λ domain. found tt;
  find_account = λ domain username. found bob;
  password_of = λ domain account. stored;
  password_verify = λ pass stored. false;
  mailboxes_of = λ account subscribed. found inbox;
  status_of = λ account name. empty_query;
  upgrade = λ ssl. none;
  uid_next = [];
}

abbrev login_command : Command
login_command = record {
  index = codes "a1";
  command_type = CommandType.login;
  args = push_back (push_back empty (atom (codes "bob@fannst.nl"))) (string (codes "x"));
}

abbrev list_command : Command
list_command = record {
  index = codes "a2";
  command_type = CommandType.list;
  args = push_back (push_back empty (string [])) (string (codes "*"));
}

abbrev fresh : Conn
fresh = record { session = new_session; use_ssl = true; written = [] }

known : (stored : Query Bytes) → Known (env stored) login_command
unfolding first_two text_of remove_string_quotes full_user find_first_of find_last_of get_domain
    get_username EmailAddress.parse reduce_whitespace remove_first_and_last_white
known stored = record {
  user = codes "bob@fannst.nl";
  pass = codes "x";
  first = atom (codes "bob@fannst.nl");
  second = string (codes "x");
  given = refl;
  first_text = refl;
  second_text = refl;
  address = record { name = []; address = codes "bob@fannst.nl" };
  parses = refl;
  domain = codes "fannst.nl";
  has_domain = refl;
  username = codes "bob";
  has_username = refl;
  local = refl;
  account = bob;
  finds = refl;
}

abbrev wrong : Env
wrong = env (found (codes "s"))

list-rejected_example :
    (login wrong login_command fresh ≡ thrown (no (codes "Password rejected")) (rejected fresh bob))
    × (get_flag (rejected fresh bob).session flag_logged_in ≡ false)
    × (list wrong list_command (rejected fresh bob)
        ≡ send (rejected fresh bob) (build_list CommandType.list (codes "a2") inbox))
unfolding known first_two text_of remove_string_quotes
list-rejected_example =
    list-rejected wrong wrong login_command list_command fresh (known (found (codes "s"))) inbox
      (string []) (string (codes "*")) [] (codes "s") refl refl refl refl refl refl

abbrev lines : List (Env × Bytes)
lines = (wrong, codes "a1 LOGIN bob x") ∷ (wrong, codes "a2 LIST \"\" *") ∷ []

handler-Stays_example : Stays (LoggedIn lines) (handler true (codes "mx") lines)
handler-Stays_example = handler-Stays true (codes "mx") lines
