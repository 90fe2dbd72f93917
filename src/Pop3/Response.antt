-- ===== src/Pop3/Response.antt =====
-- lib/pop3/P3Response.src.cc: the text of a response. The name of the node comes from the
-- configuration.
use fsmtp_v.Base.{ℕ, Bool, true, false, List, [], ◌∷◌, ◌++◌, Option, none, some}
use fsmtp_v.Base.Text.{Bytes, codes}
use fsmtp_v.Base.Numbers.{to_string}
use fsmtp_v.Pop3.Conn.{
  ResponseType, greeting, capa, stls_start, command_invalid, user_done, auth_success, auth_fail,
  syntax_error, quit, stat, uidl, list, retr, dele_success, order_error, top, rset, implementation,
  Listing, no_list, capability_list, element_list, Written, response, text,
}

-- The message of a type; none is the exception for a type without one.
unfoldable pub default_message : Bytes → ResponseType → Bytes → Option Bytes
default_message node capa subject = some (codes "Capability list follows")
default_message node uidl subject = some (codes "UIDL follows")
default_message node stls_start subject = some (codes "Begin TLS negotiation now")
default_message node command_invalid subject = some (codes "[SYS] Invalid command")
default_message node dele_success subject = some (codes "Gravestone added")
default_message node user_done subject = some (codes "Send PASS")
default_message node auth_success subject = some (codes "Auth Success")
default_message node list subject = some (codes "LIST follows")
default_message node top subject = some (codes "Top of message follows")
default_message node rset subject = some (codes "Reset state")
default_message node implementation subject =
    some (codes "UNIX, Fannst POP3 https://github.com/skywa04885/fsmtp-v2")
default_message node greeting subject = some (codes "Fannst POP3 Server ready, " ++ subject)
default_message node order_error subject = some (codes "[SYS] Order Error: " ++ subject)
default_message node retr subject = some (subject ++ codes " octets")
default_message node auth_fail subject = some (codes "[AUTH] Auth Failure: " ++ subject)
default_message node syntax_error subject = some (codes "[SYS] Syntax Error: " ++ subject)
default_message node quit subject = some (codes "POP3 server signing off " ++ node)
default_message node stat subject = none

-- `getMessage`.
unfoldable pub get_message : Bytes → ResponseType → Bytes → Bytes → Option Bytes
unfolding default_message
get_message node t [] subject = default_message node t subject
get_message node t (c ∷ message) subject = some (c ∷ message)

abbrev pub crlf : Bytes
crlf = 13 ∷ 10 ∷ []

-- A capability is its name with a space and an argument for each argument.
unfoldable pub build_capabilities : List Bytes → Bytes
build_capabilities [] = b'.' ∷ crlf
build_capabilities (cap ∷ caps) = cap ++ crlf ++ build_capabilities caps

unfoldable pub build_list : List (ℕ × Bytes) → Bytes
build_list [] = b'.' ∷ crlf
build_list (e ∷ es) = to_string (e.0) ++ b' ' ∷ e.1 ++ crlf ++ build_list es

unfoldable pub build_listing : Listing → Bytes
unfolding build_capabilities build_list
build_listing no_list = crlf
build_listing (capability_list caps) = crlf ++ build_capabilities caps
build_listing (element_list es) = crlf ++ build_list es

abbrev pub status : Bool → Bytes
status true = codes "+OK "
status false = codes "-ERR "

-- `build`.
unfoldable pub build : Bytes → Written → Option Bytes
unfolding get_message build_listing
build node (response ok t message listing subject) = elim (get_message node t message subject) [
  | none ↦ none
  | some m ↦ some (status ok ++ m ++ build_listing listing)
]
build node (text s) = some s
