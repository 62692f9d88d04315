-- ===== src/Auth.antt =====
-- internal/whatsapp/auth: the authorisation of a user's WhatsApp account by QR code.
pub mod Registry
pub mod Flow
pub mod Settled
pub mod FlowExamples
pub mod Examples
