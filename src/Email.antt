-- ===== src/Email.antt =====
-- pkg/services/email: the defences against spam and the SMTP session.
pub mod Text
pub mod Antispam
pub mod Smtp
mod Tests
