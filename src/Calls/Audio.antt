-- ===== src/Calls/Audio.antt =====
-- The audio of a call (internal/whatsapp/calls/audio.go and the media loops of calls.go).
pub mod Pcm
pub mod Chunks
pub mod Upsample
pub mod Media
pub mod Playback
pub mod Source
pub mod Examples
