-- ===== src/Mime.antt =====
-- internal/mailmime/reply.go: what a reply or a forward carries of the message that it answers. The
-- children model the subject, the quoted text and the References header.
pub mod Subject
pub mod References
pub mod Quote
