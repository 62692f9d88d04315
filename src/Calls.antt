-- ===== src/Calls.antt =====
-- The voice calls of one bot (internal/whatsapp/calls).
pub mod Hub
pub mod Audio
pub mod Manager
