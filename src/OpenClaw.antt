-- ===== src/OpenClaw.antt =====
-- services/openclaw: the connection to the orchestrator, and how its frames reach the sessions.
pub mod Queue
pub mod TurnRegistry
pub mod ClientRegistry
pub mod Dispatcher
pub mod ChatText
pub mod TurnStream
pub mod Frames
pub mod Connection
pub mod Listening
pub mod Orchestration
