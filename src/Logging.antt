-- ===== src/Logging.antt =====
-- internal/logging: what is written to the log.
pub mod Redact
