-- ===== src/Pop3/Handlers.antt =====
-- lib/pop3/P3Server.src.cc: the cases of `handleCommand`. Here are what a handler gets from outside,
-- and the cases that only read the session.
pub mod Login
pub mod Messages
use fsmtp_v.Base.{
  ℕ, suc, Bool, true, false, not, List, [], ◌∷◌, ◌++◌, ◌+◌, if◌then◌else◌, length, ◌%◌, ◌^◌,
}
use fsmtp_v.Base.Text.{Bytes, codes}
use fsmtp_v.Base.Numbers.{to_string_signed, Stol, long, invalid_argument, out_of_range, to_string}
use fsmtp_v.Models.Account.{
  AccountShortcut, Query, found, empty_query, database_exception, runtime_error,
}
use fsmtp_v.Pop3.Conn.{
  Reference, flag_auth, get_flag, ResponseType, no_list, capability_list, element_list, response,
  Conn, Exn, order, syntax, other, Outcome, done, thrown, write, with_session, plain,
}

-- The configuration, the databases, OpenSSL, and the time in a `CassUuid`.
pub record Env : Type 0 where
  pub domain : Bytes
  -- `upgradeAsServer`; false if it throws
  pub upgrade : Bool
  pub local_domain : Bytes → Query (Unit {0})
  pub find_account : Bytes → Bytes → Query AccountShortcut
  pub password_of : AccountShortcut → Query Bytes
  pub password_verify : Bytes → Bytes → Bool
  pub references_of : AccountShortcut → Query (List Reference)
  pub raw_email : AccountShortcut → Reference → Query Bytes
  pub timestamp : ℕ → ℕ

-- A result of a query that nothing catches: each exception ends the connection.
unfoldable pub or_stop {ℓ} : {A : Type ℓ} → Query A → Conn → (A → Outcome) → Outcome
or_stop (found a) c next = next a
or_stop empty_query c next = thrown other c
or_stop database_exception c next = thrown other c
or_stop runtime_error c next = thrown other c

-- `stol` under `catch (const invalid_argument &e)`, which throws the syntax error `what`.
unfoldable pub or_syntax : Bytes → Stol → Conn → (ℕ → Outcome) → Outcome
or_syntax what (long v) c next = next v
or_syntax what invalid_argument c next = thrown (syntax what) c
or_syntax what out_of_range c next = thrown other c

unfoldable pub handle_stls : Env → Conn → Outcome
handle_stls env c =
    let ready = record (write c (plain ResponseType.stls_start)) { using_ssl = true } in
    if env.upgrade then done false ready else thrown other ready

unfoldable pub handle_quit : Conn → Outcome
handle_quit c = done true (write c (plain ResponseType.quit))

-- `s_Capabilities`, filled by the constructor, in the text of `buildCapabilities`.
abbrev capabilities : List Bytes
capabilities =
    codes "EXPIRE NEVER"
    ∷ codes "LOGIN-DELAY 0"
    ∷ codes "STLS"
    ∷ codes "USER"
    ∷ codes "TOP"
    ∷ codes "UIDL"
    ∷ codes "RESP-CODES"
    ∷ codes "AUTH-RESP-CODE"
    ∷ codes "IMPLEMENTATION"
    ∷ []

-- A list that is written with the numbers from `i + 1` on.
unfoldable pub numbered : ℕ → List Bytes → List (ℕ × Bytes)
numbered i [] = []
numbered i (x ∷ xs) = (suc i, x) ∷ numbered (suc i) xs

unfoldable pub handle_capa : Conn → Outcome
handle_capa c =
    done false (write c (response true ResponseType.capa [] (capability_list capabilities) []))

-- The sum of the sizes in an `int64_t`, as its 64-bit pattern.
unfoldable pub octets : List Reference → ℕ
octets [] = 0
octets (r ∷ rs) = (r.size + octets rs) % 2 ^ 64

unfoldable pub needs_auth : Conn → Outcome → Outcome
needs_auth c o =
    if not (get_flag c.session flag_auth) then thrown (order (codes "USER/PASS First.")) c else o

unfoldable pub handle_stat : Conn → Outcome
handle_stat c =
    let refs = c.session.references in
    let message = to_string (length refs) ++ b' ' ∷ to_string_signed (octets refs) in
    needs_auth c (done false (write c (response true ResponseType.stat message no_list [])))

unfoldable pub uidl_texts : Env → List Reference → List Bytes
uidl_texts env [] = []
uidl_texts env (r ∷ rs) = to_string (env.timestamp r.uuid) ∷ uidl_texts env rs

unfoldable pub handle_uidl : Env → Conn → Outcome
handle_uidl env c =
    let list = numbered 0 (uidl_texts env c.session.references) in
    needs_auth c (done false (write c (response true ResponseType.uidl [] (element_list list) [])))

unfoldable pub list_texts : List Reference → List Bytes
list_texts [] = []
list_texts (r ∷ rs) = to_string r.size ∷ list_texts rs

unfoldable pub handle_list : Conn → Outcome
handle_list c =
    let list = numbered 0 (list_texts c.session.references) in
    needs_auth c (done false (write c (response true ResponseType.list [] (element_list list) [])))

unfoldable pub handle_rset : Conn → Outcome
handle_rset c =
    let cleared = with_session c (record (c.session) { graveyard = [] }) in
    done false (write cleared (plain ResponseType.rset))
