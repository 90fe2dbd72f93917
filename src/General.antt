-- ===== src/General.antt =====
-- lib/general: what the protocol servers share.
pub mod Cleanup
pub mod Hex
pub mod Encoding
