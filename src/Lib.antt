-- ===== src/Lib.antt =====
-- Verification library of the FSMTP-V2 mail server.
--
-- The program takes mail by SMTP, keeps it in Cassandra with accounts in Redis, sends it on with
-- background workers, and gives it out by POP3, IMAP and HTTP. The library models its text
-- formats and the servers' session logic.
--
-- Which file models what (paths from the repository's root):
-- - Base and its children: shared names, lists and strings over native numbers, bit masks, `stol`
--   and `to_string`. Strings are lists of bytes; `std::string` operations have their behaviour at
--   the ends written out. Base/Segments is the splitting loop of
--   lib/xfannst/XFannstFlags.src.cc on fuel: each round but the last takes a separator off, so
--   one round more than the text has bytes is enough.
-- - General/Cleanup: lib/general/cleanup.src.cc. General/Hex: lib/general/hex.src.cc.
-- - Models/EmailAddress: the addresses of lib/models/Email.src.cc. Models/Account: what the
--   queries for domains and accounts answer, as values.
-- - Xfannst: lib/xfannst/XFannstFlags.src.cc.
-- - Mime and its children: lib/mime/mimev2.src.cc. Mime/Headers joins and splits the headers,
--   Mime/Content reads content types, Mime/Multipart splits a body at its boundaries, and
--   Mime/Message is the recursive parser, on fuel: each part is shorter than the body that it
--   stands in, so one round more than the message has lines is enough.
-- - Networking: the comparison of addresses in lib/networking/IPv4.src.cc and IPv6.src.cc.
-- - Spf/Record: lib/spf/SPFRecord.src.cc. Spf/Validator: lib/spf/SPFValidator.src.cc, on fuel for
--   the calls that redirections and inclusions make, which the source does not bound.
--   Spf/Validator/Permits says what of one record lets an address send, and its child that each check
--   allows for one of these reasons.
-- - Smtp/Response: lib/smtp/Response.src.cc; parseResponse stands in Smtp/Client. Smtp/Client, with
--   Smtp/Client/Dialogue and Smtp/Client/Targets: lib/smtp/client/SMTPClient.src.cc and
--   SMTPClientSession.src.cc. Each `case` of the switch of beSocial is a function that ends in the
--   next, as the source falls through. The loop runs on fuel; nine rounds are enough. The variable
--   `code` of a round that assigns nothing to it is the field `held` of `Env`.
-- - General/Encoding: escapeHTML in lib/general/encoding.src.cc.
-- - Dmarc/Record: lib/dmarc/DMARCRecord.src.cc. The one value that the code leaves undefined, the
--   result of `parseAlignment` without a `return`, is a field of `Env`, so that what is shown of
--   records holds for whatever alignment is left there.
-- - Http: the names, the first line of a request and its path in lib/http/HTTP.src.cc, and
--   getAcceptEncoding in HTTPRequest.src.cc.
-- - Imap/Lexer and Imap/Parser: lib/imap/IMAPCommandParser.src.cc. The lexer spends fuel once for
--   each token, and the parser once for each call and each token, so twice the number of tokens and
--   two is enough. Imap/Parser/Written and its children hold the proof that it reads back what is
--   written. Imap/Command: lib/imap/IMAPCommand.src.cc. Imap/Response: IMAPResponse.src.cc.
--   Imap/Conn: IMAPServerSession.src.cc. Imap/Handlers: IMAPAuthHandler.src.cc and
--   IMAPMailboxHandler.src.cc. Imap/Server: IMAPServer.src.cc. The class of its sockets,
--   `IMAPClientSocket`, is declared nowhere in the repository: reading a line and upgrading to TLS
--   are parameters.
-- - Dkim/Canonicalization: the bodies in lib/dkim/DKIMCanonicalization.src.cc; Dkim/Canonicalization/
--   Headers: the headers there.
-- - Dkim/Record, Dkim/Header: lib/dkim/DKIMRecord.src.cc, with the search in the DNS, and
--   lib/dkim/DKIMHeader.src.cc, with the builder that it calls.
-- - Dkim/Validator: lib/dkim/DKIMValidator.src.cc, on the hashes and the check of a signature by
--   OpenSSL.
-- - Builders: lib/builders/mimev2.src.cc, the folding of headers. The loop over a long segment is on
--   fuel: for a limit above 7 each round takes a byte off at least, so one round more than the
--   segment has bytes is enough.
-- - Dns/Header: the packet header of lib/dns/DNSHeader.src.cc, over a list of bytes.
-- - Smtp/Command: lib/smtp/Command.src.cc. Smtp/Session: lib/smtp/server/SMTPServerSession.src.cc.
--   Smtp/Handlers and its children: the cases of `handleCommand` in
--   lib/smtp/server/SMTPServer.src.cc, with `authVerify` of SMTPAuthentication.src.cc beside it.
--   Smtp/Data: lib/smtp/server/handlers/data.src.cc. Smtp/Server: the switch and the loop.
--   A handler takes the connection (`Conn`: session, written responses, what the workers were
--   handed) and what it gets from outside (`Env`), and gives an `Outcome`: done, an exception,
--   or undefined behaviour. Smtp/Relay and its children hold the proofs about relaying, with
--   what `authVerify` shows where it says yes in Smtp/Relay/Login,
--   Smtp/Server/Order and Smtp/Server/Limit those about the order and the number of commands.
-- - Pop3/Command: lib/pop3/P3Commands.src.cc. Pop3/Conn: lib/pop3/P3ServerSession.src.cc.
--   Pop3/Handlers and its children: the cases of `handleCommand` in lib/pop3/P3Server.src.cc.
--   Pop3/Response: lib/pop3/P3Response.src.cc. Pop3/Server: the switch, the loop, and the deletions
--   when a connection has ended; Pop3/Server/Safety and Pop3/Server/Order hold the proofs about them.
-- - Imap/Handlers/Leaves and Imap/Server/Verified hold the proof about the flag of a login.
-- - Tests: runs on concrete inputs.
--
-- Bounds: the SMTP loop runs at most 60 commands, as the source counts; the POP3 loop runs until
-- its lines end. Flag words are natural numbers below the width of the source's integers, and
-- masks are tested by `bit_and`. Indices of POP3 are 64-bit patterns with wrap-around.
--
-- The source hands the workers a pointer to the session of the connection, which later commands
-- change; Smtp/Data hands over the session as it is when the message is queued, and what is shown of
-- relaying covers the session at the end of the connection too.
--
-- Each command of a client comes with its own `Env`, so that the databases may change between two
-- commands. `readToDelim` is the list of lines; where it ends, the read throws.
--
-- Not modelled: sockets, threads and TLS; the databases behind the queries; cryptography, with the
-- signer of DKIM; the DMARC validator, which Smtp/Data takes as a parameter, as it does the answers of
-- the SPF and DKIM validators and the MIME parser; the workers, the composer of messages, and of the
-- HTTP server what Http does not name; the DNS questions, zones and sockets.
pub mod Base
pub mod Builders
pub mod Dkim
pub mod Dmarc
pub mod Dns
pub mod General
pub mod Http
pub mod Imap
pub mod Mime
pub mod Models
pub mod Networking
pub mod Pop3
pub mod Smtp
pub mod Spf
pub mod Tests
pub mod Xfannst
