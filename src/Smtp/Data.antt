-- ===== src/Smtp/Data.antt =====
-- lib/smtp/server/handlers/data.src.cc: the message behind `DATA`, its verdicts and its tasks.
pub mod Spam
use fsmtp_v.Base.{
  ℕ, Bool, true, false, not, ◌&&◌, List, [], ◌∷◌, ◌++◌, map, Option, none, some, if◌then◌else◌,
  length,
}
use mathlib.Core.Option
use fsmtp_v.Base.Text.{Bytes, codes, beq, tolower}
use fsmtp_v.Models.EmailAddress.{EmailAddress, Attempt, ok, throws, get_domain}
use fsmtp_v.Smtp.Session.{
  Session, XFannstFlags, get_flag, set_possible_spam, storage_tasks_to_spam, remove_sent_tasks,
  generate_snippet,
}
use fsmtp_v.Smtp.Session.Flag
use fsmtp_v.Smtp.Reply.{data_end, spf_reject, message_too_large}
use fsmtp_v.Smtp.Conn.{
  Conn, Outcome, done, thrown, undefined, runtime, write, plain, saying, with_session,
}
use fsmtp_v.Xfannst

pub data DmarcPolicy : Type 0 where
  policy_none policy_quarantine policy_reject : DmarcPolicy

pub data SpfResult : Type 0 where
  spf_denied spf_allowed spf_system_failure : SpfResult

pub data DkimResult : Type 0 where
  dkim_pass dkim_fail dkim_system_error dkim_neutral : DkimResult

pub record Section : Type 0 where
  pub is_text_plain : Bool
  pub content : Bytes

-- The fields of `FullEmail` that the handler reads.
pub record FullEmail : Type 0 where
  pub message_id : Bytes
  pub subject : Bytes
  pub from : List EmailAddress
  pub headers : List (Bytes × Bytes)
  pub sections : List Section

-- How `readToDelim` ends: with the message, with its `SocketReadLimit`, or with a `runtime_error`.
pub data MessageRead : Type 0 where
  complete : Bytes → MessageRead
  read_limit read_failed : MessageRead

-- What the handler gets from the socket, the validators, the header builders and the MIME parser.
pub record DataEnv : Type 0 where
  pub read : MessageRead
  -- the policy of the record found for a query, if one is found
  pub dmarc : Bytes → Option DmarcPolicy
  pub spf : Bytes → SpfResult
  pub spf_text : Bytes
  pub dkim : Bytes → DkimResult
  pub dkim_text : Bytes
  -- the header value for the query and whether DMARC passes; `none` if there is no record
  pub dmarc_text : Bytes → Option Bool → Bytes
  pub su_text : Bytes
  -- the message with the auth results and the `MessageRead` header added, its headers folded
  pub rebuild : Bytes → List (Bytes × Bytes) → Bytes
  pub parse_mime : Bytes → Attempt FullEmail
  -- the text of the final response for the message's id and size
  pub queued_text : Bytes → ℕ → Bytes

abbrev pub spf_valid : SpfResult → Bool
spf_valid spf_denied = false
spf_valid spf_system_failure = false
spf_valid spf_allowed = true

abbrev pub dkim_valid : DkimResult → Bool
dkim_valid dkim_pass = true
dkim_valid dkim_neutral = true
dkim_valid dkim_system_error = false
dkim_valid dkim_fail = false

-- What SPF and the DMARC policy say: reject, or whether DMARC counts SPF as valid, and whether the
-- message is possible spam.
pub data SpfVerdict : Type 0 where
  reject : SpfVerdict
  proceed : Bool → Bool → SpfVerdict

unfoldable pub spf_verdict : Option DmarcPolicy → Bool → SpfVerdict
spf_verdict none true = proceed true false
spf_verdict none false = proceed true true
spf_verdict (some policy) true = proceed true false
spf_verdict (some policy_none) false = proceed true true
spf_verdict (some policy_quarantine) false = proceed false true
spf_verdict (some policy_reject) false = reject

unfoldable pub dmarc_dkim_valid : Option DmarcPolicy → Bool → Bool
dmarc_dkim_valid none valid = true
dmarc_dkim_valid (some policy) true = true
dmarc_dkim_valid (some policy_none) false = true
dmarc_dkim_valid (some policy_quarantine) false = false
dmarc_dkim_valid (some policy_reject) false = false

-- Marks the session, where the switch calls `setPossibleSpam(true)`.
abbrev mark_spam : Session → Bool → Session
mark_spam s flagged = if flagged then set_possible_spam s true else s

-- `authResults` of a message from outside.
abbrev auth_results : DataEnv → Session → Bytes → Option Bool → List (Bytes × Bytes)
auth_results env s query passes =
    (codes "spf", env.spf_text)
    ∷ (codes "dkim", env.dkim_text)
    ∷ (codes "dmarc", env.dmarc_text query passes)
    ∷ (if get_flag s Flag.su then (codes "su", env.su_text) ∷ [] else [])

-- The flags header, parsed into the session for each such header; a throw leaves what was parsed.
unfoldable pub read_flags : XFannstFlags → List (Bytes × Bytes) → XFannstFlags
read_flags flags [] = flags
read_flags flags ((key, value) ∷ headers) =
    read_flags
      (if beq (map tolower key) (codes "x-fannst-flags")
        then (Xfannst.parse flags value).0
        else flags)
      headers

-- `any_of` stops at the first section for which the lambda says true, and it says false for text.
unfoldable pub find_snippet : Session → List Section → Session
find_snippet s [] = s
find_snippet s (b ∷ sections) =
    let rest = find_snippet (generate_snippet s b.content) sections in
    if b.is_text_plain then rest else s

-- The tasks, by the spam mark and the flags header.
unfoldable pub modify_targets : Session → Session
modify_targets s =
    let a = if s.possible_spam then storage_tasks_to_spam s else s in
    if Xfannst.get_no_store a.xfannst then remove_sent_tasks a else a

abbrev is_empty {ℓ} : {A : Type ℓ} → List A → Bool
is_empty [] = true
is_empty (x ∷ xs) = false

-- From the response on: the workers get the session as it is when it is queued. The source hands them
-- a pointer to the session that the later commands of the connection change, and they read it at a
-- time of their own.
unfoldable pub queue : DataEnv → Conn → Outcome
queue env c =
    let s = c.session in
    let answered = write c (saying data_end (env.queued_text s.message_id (length s.raw))) in
    let kept =
      if not (is_empty s.storage_tasks)
      then record answered { stored = answered.stored ++ s ∷ [] }
      else answered in
    done false (
      if not (is_empty s.relay_tasks)
      then record kept { transmitted = kept.transmitted ++ s ∷ [] }
      else kept)

-- From `setMessageID` on, with the first sender of the message.
unfoldable pub store_email : DataEnv → Conn → FullEmail → Outcome
store_email env c email =
    let s = c.session in
    let flagged = record s { xfannst = read_flags s.xfannst email.headers } in
    elim email.from [
      | [] ↦ undefined
      | sender ∷ _ ↦
          let named = record flagged {
            message_id = email.message_id;
            subject = email.subject;
            from = sender;
          } in
          queue env (with_session c (modify_targets (find_snippet named email.sections)))
    ]

-- From the headers on, with the auth results.
unfoldable pub deliver : DataEnv → Conn → List (Bytes × Bytes) → Outcome
deliver env c results =
    let s = c.session in
    let rebuilt = record s { raw = env.rebuild s.raw results } in
    elim (env.parse_mime rebuilt.raw) [
      | throws _ ↦ thrown runtime (with_session c rebuilt)
      | ok email ↦ store_email env (with_session c rebuilt) email
    ]

-- The checks of a message from a client that has not authenticated.
unfoldable pub check_and_deliver : DataEnv → Conn → Bytes → Outcome
check_and_deliver env c domain =
    let query = codes "_dmarc." ++ domain in
    let record_found = env.dmarc query in
    elim (spf_verdict record_found (spf_valid (env.spf domain))) [
      | reject ↦ done true (write c (plain spf_reject))
      | proceed dmarc_spf flagged ↦
          let s = mark_spam c.session flagged in
          let dkim = dkim_valid (env.dkim s.raw) in
          deliver env (with_session c s) (
            auth_results env s query
              (Option.map (λ _. dmarc_spf && dmarc_dkim_valid record_found dkim) record_found))
    ]

unfoldable pub data_handler : DataEnv → Conn → Outcome
data_handler env c = elim env.read [
  | read_limit ↦ done true (write c (plain message_too_large))
  | read_failed ↦ thrown runtime c
  | complete message ↦
      let read = with_session c (record (c.session) { raw = message }) in
      if get_flag c.session Flag.auth
      then deliver env read ((codes "auth", codes "pass") ∷ [])
      else elim (get_domain c.session.transport_from) [
        | throws _ ↦ thrown runtime read
        | ok domain ↦ check_and_deliver env read domain
      ]
]
