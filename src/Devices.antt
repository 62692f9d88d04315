-- ===== src/Devices.antt =====
-- internal/whatsapp/devicestore: the device of a bot, as it is saved and restored. Bytes are numbers.
-- The random numbers, SHA-256, base64 and JSON of Go's library stand as a record of functions, with what
-- is documented of them as its laws.
pub mod Normal
pub mod Lengths
pub mod Restore
pub mod Restored
pub mod Kept
pub mod Examples
