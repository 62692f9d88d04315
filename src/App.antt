-- ===== src/App.antt =====
-- internal/app: what the application keeps of its own.
pub mod Keys
pub mod Since
pub mod Examples
