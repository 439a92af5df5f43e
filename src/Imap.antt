-- ===== src/Imap.antt =====
-- The IMAP driver (internal/imapdrv).
pub mod Profile
pub mod View
pub mod Step
pub mod Client
pub mod Session
