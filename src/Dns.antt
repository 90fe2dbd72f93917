-- ===== src/Dns.antt =====
-- lib/dns: the packets of the name server.
pub mod Header
