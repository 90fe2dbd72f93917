-- ===== src/Imap.antt =====
-- lib/imap: the IMAP server, from the arguments of a command to the session.
pub mod Lexer
pub mod Parser
pub mod Command
pub mod Response
pub mod Conn
pub mod Handlers
pub mod Server
