-- ===== src/Smtp/Data/Spam.antt =====
-- Where the copies of a suspicious message go.
use fsmtp_v.Base.{◌≢◌}
use fsmtp_v.Smtp.Session.{Session, StorageTask, incomming}
use fsmtp_v.Xfannst

abbrev Elsewhere : StorageTask → Type 0
Elsewhere task = task.target ≢ incomming
