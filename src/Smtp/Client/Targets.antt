-- ===== src/Smtp/Client/Targets.antt =====
-- lib/smtp/client/SMTPClient.src.cc: the targets of a message, and `beSocial` over all of them.
pub mod Transactions
use fsmtp_v.Base.{
  ℕ, zero, suc, Bool, true, false, List, [], ◌∷◌, ◌++◌, Option, none, some, if◌then◌else◌,
}
use fsmtp_v.Base.Text.{Bytes, codes}
use fsmtp_v.Base.Numbers.{to_string_signed}
use fsmtp_v.Models.EmailAddress.{EmailAddress, Attempt, ok, throws, to_string, get_domain}
use fsmtp_v.Spf.Validator.{Protocol, protocol_ipv4, protocol_ipv6}
use fsmtp_v.Smtp.Client.{Error, Conn, Env, add_error}
use fsmtp_v.Smtp.Client.Dialogue.{Ended, finished, escaped, broken, out_of_fuel, run, opened}

-- `SMTPClientServer` and `SMTPClientTarget`.
pub record Server : Type 0 where
  pub address : Bytes
  pub protocol : Protocol

pub record Target : Type 0 where
  pub servers : List Server
  pub address : EmailAddress

-- A connection that stands: what the server sends, and why the upgrade fails, if it does.
pub record Peer : Type 0 where
  pub lines : List Bytes
  pub upgrade_fails : Option Bytes

-- The configuration, the resolver, the signer, and the connections, by the number of the target.
pub record Net : Type 0 where
  pub ipv6 : Bool
  pub mailer_port : ℕ
  pub client_domain : Bytes
  pub domain : Bytes
  pub records : Bytes → Attempt (List Bytes)
  pub resolve : Protocol → Bytes → Option Bytes
  pub sign : Bytes → Attempt Bytes
  pub connect : ℕ → Server → Attempt Peer
  pub read_fails : Bytes
  pub held : Conn → ℕ

pub record Client : Type 0 where
  pub transport_message : Bytes
  pub targets : List Target
  pub error_log : List Error
  pub mail_from : EmailAddress

-- The records whose host has an address of a protocol; the others are passed over.
unfoldable pub resolve_all : Net → Protocol → List Bytes → List Server
resolve_all net protocol [] = []
resolve_all net protocol (host ∷ hosts) =
    let rest = resolve_all net protocol hosts in
    elim (net.resolve protocol host) [
      | none ↦ rest
      | some address ↦ record { address = address; protocol = protocol } ∷ rest
    ]

-- IPv4 where there is no server with IPv6.
unfoldable pub or_ipv4 : Net → List Bytes → List Server → List Server
or_ipv4 net hosts [] = resolve_all net protocol_ipv4 hosts
or_ipv4 net hosts (s ∷ servers) = s ∷ servers

unfoldable pub servers_of : Net → List Bytes → List Server
unfolding resolve_all or_ipv4
servers_of net hosts =
    or_ipv4 net hosts (if net.ipv6 then resolve_all net protocol_ipv6 hosts else [])

unfoldable pub get_servers : Net → Bytes → Attempt (List Server)
unfolding servers_of
get_servers net domain = elim (net.records domain) [
  | throws what ↦ throws what
  | ok hosts ↦ ok (servers_of net hosts)
]

-- The servers of an address, or the exception of its domain or of the resolver.
unfoldable pub servers_for : Net → EmailAddress → Attempt (List Server)
unfolding get_servers
servers_for net address = elim (get_domain address) [
  | throws what ↦ throws what
  | ok domain ↦ get_servers net domain
]

unfoldable pub add_target : EmailAddress → Attempt (List Server) → Client → Client
add_target address (ok servers) c = record c {
  targets = c.targets ++ record { servers = servers; address = address } ∷ [];
}
add_target address (throws what) c = record c {
  error_log =
      add_error (to_string address) (codes "Resolver exception: '" ++ (what ++ codes "'"))
        c.error_log;
}

unfoldable pub configure_recipients : Net → List EmailAddress → Client → Client
unfolding servers_for add_target
configure_recipients net [] c = c
configure_recipients net (address ∷ addresses) c =
    configure_recipients net addresses (add_target address (servers_for net address) c)

unfoldable pub reset : Client → Client
reset c = record c { targets = []; error_log = [] }

-- `prepare`, with the first of the senders.
unfoldable pub prepare : Net → List EmailAddress → EmailAddress → Bytes → Client → Attempt Client
unfolding configure_recipients
prepare net to from message c = elim (net.sign message) [
  | throws what ↦ throws what
  | ok signed ↦
      ok (configure_recipients net to (record c { transport_message = signed; mail_from = from }))
]

-- The dialogue of one target.
unfoldable pub env_of : Net → Client → Target → Peer → Env
env_of net c target peer = record {
  client_domain = net.client_domain;
  domain = net.domain;
  mail_from = c.mail_from;
  target = target.address;
  transport_message = c.transport_message;
  upgrade_fails = peer.upgrade_fails;
  read_fails = net.read_fails;
  held = net.held;
}

-- `beSocial` runs to its end, with each dialogue that it held and the log; an exception leaves it; or
-- the behaviour is undefined.
pub data Social : Type 0 where
  all_done : List (Env × Conn) → List Error → Social
  left_by_exception : List (Env × Conn) → Social
  undefined : Social
  no_fuel : Social

abbrev pub max_rounds : ℕ
max_rounds = 9

-- Behind a dialogue, the rest of the targets.
unfoldable pub after :
    Env → List (Env × Conn) → (List (Env × Conn) → List Error → Social) → Ended → Social
after env held more (finished c) = more (held ++ (env, c) ∷ []) c.errors
after env held more (escaped c) = left_by_exception (held ++ (env, c) ∷ [])
after env held more broken = undefined
after env held more out_of_fuel = no_fuel

abbrev connection_error : Net → Server → Bytes → Bytes
connection_error net server what =
    codes "Failed to connect to ["
    ++ (server.address
        ++ (codes "]:" ++ (to_string_signed net.mailer_port ++ (codes ", error: " ++ what))))

unfoldable pub dial :
    Net
    → Client
    → Target
    → Server
    → List (Env × Conn)
    → List Error
    → (List (Env × Conn) → List Error → Social)
    → Attempt Peer
    → Social
unfolding after run env_of
dial net c target server held errors more (throws what) =
    more held (add_error (to_string target.address) (connection_error net server what) errors)
dial net c target server held errors more (ok peer) =
    let env = env_of net c target peer in
    after env held more (run max_rounds env true (opened peer.lines errors))

-- `target.servers[0]` is read without a test that there is one.
unfoldable pub visit :
    Net
    → Client
    → ℕ
    → Target
    → List (Env × Conn)
    → List Error
    → (List (Env × Conn) → List Error → Social)
    → List Server
    → Social
unfolding dial
visit net c n target held errors more [] = undefined
visit net c n target held errors more (server ∷ servers) =
    dial net c target server held errors more (net.connect n server)

unfoldable pub visit_all : Net → Client → ℕ → List Target → List (Env × Conn) → List Error → Social
unfolding visit
visit_all net c n [] held errors = all_done held errors
visit_all net c n (target ∷ targets) held errors =
    visit net c n target held errors (visit_all net c (suc n) targets) target.servers

unfoldable pub be_social : Net → Client → Social
unfolding visit_all
be_social net c = visit_all net c 0 c.targets [] c.error_log
