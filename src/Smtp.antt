-- ===== src/Smtp.antt =====
-- lib/smtp: the commands of a client and the server's session with it.
pub mod Command
pub mod Session
pub mod Reply
pub mod Response
pub mod Conn
pub mod Data
pub mod Handlers
pub mod Server
pub mod Relay
pub mod Client
