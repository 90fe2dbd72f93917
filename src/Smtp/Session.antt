-- ===== src/Smtp/Session.antt =====
-- lib/smtp/server/SMTPServerSession.src.{h,cc}: what the server keeps of one connection. Flag and
-- action words are non-negative; `m_Date` and `m_Size` are never written or read.
pub mod Flag
pub mod Action
pub mod Laws
use fsmtp_v.Base.{
  ℕ, Bool, true, false, List, [], ◌∷◌, ◌++◌, ltb, ◌==◌, if◌then◌else◌, ◌-◌, ◌^◌, bit_and, bit_or,
  length, take, map,
}
use fsmtp_v.Base.Text.{Bytes}
use fsmtp_v.Models.Account.{AccountShortcut}
use fsmtp_v.Models.EmailAddress.{EmailAddress}

pub data StorageTarget : Type 0 where
  incomming sent spam : StorageTarget

pub record StorageTask : Type 0 where
  pub account : AccountShortcut
  pub target : StorageTarget

pub record RelayTask : Type 0 where
  pub target : EmailAddress

-- `XFannstFlags`, as the session reads them: `getNoStore` and `getNoError`.
pub record XFannstFlags : Type 0 where
  pub mailer_flags : ℕ
  pub storage_flags : ℕ

pub record Session : Type 0 where
  pub xfannst : XFannstFlags
  pub message_id : Bytes
  pub subject : Bytes
  pub snippet : Bytes
  pub transport_from : EmailAddress
  pub from : EmailAddress
  pub storage_tasks : List StorageTask
  pub relay_tasks : List RelayTask
  pub performed_actions : ℕ
  pub possible_spam : Bool
  pub flags : ℕ
  pub raw : Bytes
  pub sending_account : AccountShortcut

abbrev pub no_address : EmailAddress
no_address = record { name = []; address = [] }

-- An `AccountShortcut` whose number fields the constructor leaves at zero.
abbrev pub no_account : AccountShortcut
no_account = record { bucket = 0; domain = []; username = []; uuid = 0 }

unfoldable pub new_session : Session
new_session = record {
  xfannst = record { mailer_flags = 0; storage_flags = 0 };
  message_id = [];
  subject = [];
  snippet = [];
  transport_from = no_address;
  from = no_address;
  storage_tasks = [];
  relay_tasks = [];
  performed_actions = 0;
  possible_spam = false;
  flags = 0;
  raw = [];
  sending_account = no_account;
}

-- `BINARY_COMPARE`.
unfoldable pub has_bits : ℕ → ℕ → Bool
has_bits word mask = bit_and word mask == mask

abbrev pub get_flag : Session → ℕ → Bool
get_flag s mask = has_bits s.flags mask

abbrev pub set_flag : Session → ℕ → Session
set_flag s mask = record s { flags = bit_or s.flags mask }

abbrev pub get_action : Session → ℕ → Bool
get_action s mask = has_bits s.performed_actions mask

abbrev pub set_action : Session → ℕ → Session
set_action s mask = record s { performed_actions = bit_or s.performed_actions mask }

-- `&= ~mask`, on 64 bits.
abbrev pub clear_action : Session → ℕ → Session
clear_action s mask = record s {
  performed_actions = bit_and s.performed_actions (2 ^ 64 - 1 - mask);
}

abbrev pub task_to_spam : StorageTask → StorageTask
task_to_spam task = elim task.target [
  | incomming ↦ record task { target = spam }
  | sent ↦ task
  | spam ↦ task
]

abbrev pub storage_tasks_to_spam : Session → Session
storage_tasks_to_spam s = record s { storage_tasks = map task_to_spam s.storage_tasks }

-- The first task for the sent folder is erased, and the loop left.
unfoldable pub remove_first_sent : List StorageTask → List StorageTask
remove_first_sent [] = []
remove_first_sent (task ∷ tasks) =
    let rest = remove_first_sent tasks in
    elim task.target [ sent ↦ tasks | incomming ↦ task ∷ rest | spam ↦ task ∷ rest ]

abbrev pub remove_sent_tasks : Session → Session
remove_sent_tasks s = record s { storage_tasks = remove_first_sent s.storage_tasks }

abbrev pub add_storage_task : Session → StorageTask → Session
add_storage_task s task = record s { storage_tasks = s.storage_tasks ++ task ∷ [] }

abbrev pub add_relay_task : Session → RelayTask → Session
add_relay_task s task = record s { relay_tasks = s.relay_tasks ++ task ∷ [] }

abbrev pub set_transform_from : Session → EmailAddress → Session
set_transform_from s address = record s { transport_from = address }

abbrev pub set_possible_spam : Session → Bool → Session
set_possible_spam s v = record s { possible_spam = v }

unfoldable pub generate_snippet : Session → Bytes → Session
generate_snippet s raw = record s { snippet = if ltb 128 (length raw) then take 128 raw else raw }
