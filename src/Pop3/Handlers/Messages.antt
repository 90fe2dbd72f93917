-- ===== src/Pop3/Handlers/Messages.antt =====
-- lib/pop3/P3Server.src.cc, `TOP`, `RETR` and `DELE`: the commands that name a message.
pub mod Bounds
use fsmtp_v.Base.{
  ℕ, zero, suc, true, false, not, ◌&&◌, List, [], ◌∷◌, ◌++◌, Option, none, some, ◌==◌, ltb, leb,
  if◌then◌else◌, length, get_elem?,
}
use fsmtp_v.Base.Text.{Bytes, codes, back, pop_back, getlines}
use fsmtp_v.Base.Numbers.{long, invalid_argument, out_of_range, stol, decrement, to_string}
use fsmtp_v.Models.Account.{found, empty_query, database_exception, runtime_error}
use fsmtp_v.Mime.{
  strip_return, get_mime_lines, line_end, get_string_from_lines, split_mime_body_and_headers,
}
use fsmtp_v.Pop3.Conn.{
  Reference, ResponseType, no_list, response, text, Conn, syntax, other, Outcome, done, thrown,
  undefined, write, with_session, plain,
}
use fsmtp_v.Pop3.Handlers.{Env, needs_auth, or_stop, or_syntax}

abbrev dot_end : Bytes
dot_end = b'.' ∷ line_end

-- `s += "\r\n"` unless the last byte or the one before it says that the line has ended; `none` is a
-- read in front of the text.
unfoldable pub end_line : Bytes → Option Bytes
end_line [] = none
end_line (x ∷ []) = if x == 10 then some (x ∷ []) else none
end_line (x ∷ y ∷ s) =
    let all = x ∷ y ∷ s in
    some (if not (back all == 10) && not (back (pop_back all) == 13) then all ++ line_end else all)

unfoldable pub append_lines : ℕ → ℕ → Bytes → List Bytes → Option Bytes
append_lines line current headers [] = some headers
append_lines line current headers ([] ∷ tokens) = none
append_lines line current headers ((c ∷ token) ∷ tokens) =
    let kept = strip_return (c ∷ token) in
    let more = append_lines line (suc current) (headers ++ kept ++ line_end) tokens in
    if ltb line current then some headers else more

-- The headers and the first lines of the body; `none` is undefined behaviour.
unfoldable pub top_text : ℕ → Bytes → Option Bytes
top_text line content = elim (split_mime_body_and_headers (get_mime_lines content)) [
  | none ↦ none
  | some (header_lines, body_lines) ↦
      let headers = get_string_from_lines header_lines in
      let body = get_string_from_lines body_lines in
      let filled =
        if ltb 0 line
        then append_lines line 0 (headers ++ line_end) (getlines 10 body)
        else some headers in
      elim filled [
        | none ↦ none
        | some t ↦ elim (end_line t) [ none ↦ none | some ended ↦ some (ended ++ dot_end) ]
      ]
]

-- What is sent of a message: its size, then the text.
unfoldable pub send_text : ResponseType → Reference → Conn → Option Bytes → Outcome
send_text t r c none = undefined
send_text t r c (some body) =
    done false (write (write c (response true t [] no_list (to_string r.size))) (text body))

unfoldable pub send_top : Env → ℕ → ℕ → Conn → Outcome
send_top env i line c = elim (get_elem? c.session.references i) [
  | none ↦ undefined
  | some r ↦
      or_stop (env.raw_email c.session.account r) c
        λ content. send_text ResponseType.top r c (top_text line content)
]

unfoldable pub top_index : Env → Bytes → Bytes → Conn → Outcome
top_index env first second c = or_syntax (codes "TOP invalid index") (stol first) c λ v.
    or_syntax (codes "TOP invalid line") (stol second) c λ line. send_top env (decrement v) line c

unfoldable pub handle_top : Env → List Bytes → Conn → Outcome
handle_top env args c = needs_auth c (elim args [
  | first ∷ second ∷ _ ↦ top_index env first second c
  | _ ↦ thrown (syntax (codes "TOP requires two arguments.")) c
])

abbrev retr_text : Bytes → Option Bytes
retr_text content = elim (end_line content) [ none ↦ none | some ended ↦ some (ended ++ dot_end) ]

abbrev pub max_index : Conn → Bytes
max_index c = codes "Max index " ++ to_string (length c.session.references)

unfoldable pub send_retr : Env → ℕ → Conn → Outcome
send_retr env i c =
    if ltb (length c.session.references) i
    then thrown (syntax (max_index c)) c
    else elim (get_elem? c.session.references i) [
      | none ↦ undefined
      | some r ↦
          or_stop (env.raw_email c.session.account r) c
            λ content. send_text ResponseType.retr r c (retr_text content)
    ]

unfoldable pub retr_index : Env → Bytes → Conn → Outcome
retr_index env arg c =
    or_syntax (codes "Invalid index for RETR") (stol arg) c λ v. send_retr env (decrement v) c

unfoldable pub handle_retr : Env → List Bytes → Conn → Outcome
handle_retr env args c = needs_auth c (elim args [
  | [] ↦ thrown (syntax (codes "RETR requires one argument.")) c
  | arg ∷ _ ↦ retr_index env arg c
])

-- The guard of `DELE`, and the new grave.
unfoldable pub add_grave : ℕ → Conn → Outcome
add_grave i c =
    if leb (length c.session.references) i
    then thrown (syntax (max_index c)) c
    else let buried = record (c.session) { graveyard = c.session.graveyard ++ i ∷ [] } in
      done false (write (with_session c buried) (plain ResponseType.dele_success))

unfoldable pub dele_index : Bytes → Conn → Outcome
dele_index arg c =
    or_syntax (codes "Invalid index for DELE") (stol arg) c λ v. add_grave (decrement v) c

unfoldable pub handle_dele : List Bytes → Conn → Outcome
handle_dele args c = needs_auth c (elim args [
  | [] ↦ thrown (syntax (codes "DELE requires one argument.")) c
  | arg ∷ _ ↦ dele_index arg c
])
