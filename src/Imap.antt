-- ===== src/Imap.antt =====
-- internal/imapx: what the client makes of a server's answers.
pub mod Envelope
