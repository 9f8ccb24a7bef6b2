-- ===== src/Smtp.antt =====
-- internal/smtpedge: an SMTP session turns MAIL, RCPT and DATA into a stored message and a receipt.
pub mod Session
pub mod Reached
pub mod Identifiers
pub mod Segments
pub mod Server
