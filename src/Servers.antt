-- ===== src/Servers.antt =====
-- internal/whatsapp/handlers and internal/delivery: the requests that reach the bots from outside. What
-- is written to a connection is a value; a failure to write is not modelled.
pub mod Http
pub mod Answered
pub mod Rpc
pub mod Guarded
pub mod Started
pub mod Examples
