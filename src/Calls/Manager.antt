-- ===== src/Calls/Manager.antt =====
-- internal/whatsapp/calls/calls.go: the manager of the calls of one bot. `*callSession` is a number
-- in a heap of sessions; what a method does outside its state is logged as an `Effect`, in order;
-- logging itself is left out. What the libraries answer are the fields of `Host`.
pub mod State
pub mod Sessions
pub mod Keep
pub mod Total
pub mod Realtime
pub mod Outgoing
pub mod Single
pub mod Entry
pub mod Begins
pub mod History
pub mod Hanging
pub mod Examples
pub mod Watch
