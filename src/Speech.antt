-- ===== src/Speech.antt =====
-- services/speech and services/pacing.py: the audio on its way to the transcriber and to the client, and
-- the adapter of one provider.
pub mod Pacing
pub mod Gate
pub mod Errors
pub mod Stt
