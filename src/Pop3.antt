-- ===== src/Pop3.antt =====
-- lib/pop3: the commands of a client and the server's session with it.
pub mod Command
pub mod Conn
pub mod Response
pub mod Handlers
pub mod Server
