-- ===== src/Models.antt =====
-- lib/models: the parts of the stored objects that the servers compute with.
pub mod EmailAddress
pub mod Account
