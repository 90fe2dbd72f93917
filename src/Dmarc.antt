-- ===== src/Dmarc.antt =====
-- lib/dmarc: the reporting and conformance records of a domain.
pub mod Record
