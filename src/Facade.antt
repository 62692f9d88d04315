-- ===== src/Facade.antt =====
-- internal/whatsapp/whatsapp.go and internal/whatsapp/user_calls.go: the bots of all users behind one
-- object. The operator mode of the dialogues, the stop of all bots, and the calls by their user.
pub mod Operator
pub mod Modes
pub mod Shutdown
pub mod Stopped
pub mod Starting
pub mod Routing
pub mod Routed
pub mod Examples
