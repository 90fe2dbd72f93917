-- ===== src/Spf.antt =====
-- lib/spf: the sender policy records and their evaluation.
pub mod Record
pub mod Validator
