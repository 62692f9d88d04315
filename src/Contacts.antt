-- ===== src/Contacts.antt =====
-- internal/whatsapp/contacts/contacts.go: the stream of a user's contacts and groups. Texts are lists of
-- code points; a `map` of contacts is a list in the order in which it is ranged over.
pub mod Hash
pub mod People
pub mod Groups
pub mod Stream
pub mod Gathered
pub mod Ending
pub mod Examples
