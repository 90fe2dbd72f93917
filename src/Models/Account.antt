-- ===== src/Models/Account.antt =====
-- lib/models/Account.src.h: the shortcut by which the servers know an account. The bucket is an
-- `int64_t` and the UUID a 128-bit `CassUuid`; the servers only pass both on.
use fsmtp_v.Base.{ℕ}
use fsmtp_v.Base.Text.{Bytes}

pub record AccountShortcut : Type 0 where
  pub bucket : ℕ
  pub domain : Bytes
  pub username : Bytes
  pub uuid : ℕ

-- What a query of the database comes back with: a value, or one of the exceptions it throws.
pub data Query {ℓ} (A : Type ℓ) : Type ℓ where
  found : A → Query A
  empty_query : Query A
  database_exception : Query A
  runtime_error : Query A
