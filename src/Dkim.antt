-- ===== src/Dkim.antt =====
-- lib/dkim: what a signature covers.
pub mod Canonicalization
pub mod Record
pub mod Header
pub mod Validator
