-- ===== src/Incoming.antt =====
-- internal/whatsapp/bot_message.go and internal/whatsapp/bot_event.go: from an event of WhatsApp to
-- the channel of the assistant. What the libraries and the other goroutines answer is a record with a
-- field for each call.
pub mod Effects
pub mod Delivery
pub mod Receive
pub mod Events
pub mod Delivered
pub mod Registered
pub mod Found
pub mod Received
pub mod Texts
pub mod Openings
pub mod Opened
pub mod Announced
pub mod Takeover
pub mod Examples
