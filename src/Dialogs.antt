-- ===== src/Dialogs.antt =====
-- internal/whatsapp/bot_channels.go: the channels of a dialogue, from the first message of a sender to
-- the listener of the assistant's answers.
pub mod Channels
pub mod Order
pub mod Listener
pub mod Answering
pub mod Answered
pub mod Examples
