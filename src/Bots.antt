-- ===== src/Bots.antt =====
-- The bots of the users: internal/whatsapp/user_bots.go, bot_lifecycle.go, user_calls.go and the list
-- of allowed callers in bot_calls.go. The settings of the assistant, the clients and the handlers that
-- a bot is made with only pass through, and are left out.
pub mod Allowed
pub mod Lifecycle
pub mod Stopping
pub mod Admitting
pub mod Restarting
pub mod Examples
