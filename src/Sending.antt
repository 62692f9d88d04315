-- ===== src/Sending.antt =====
-- internal/whatsapp/bot_media.go: what the bot sends to WhatsApp, and the typing status that ends with it.
pub mod Files
pub mod Message
pub mod Fetched
pub mod Ended
pub mod Examples
