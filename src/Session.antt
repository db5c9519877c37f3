-- ===== src/Session.antt =====
-- What a session keeps: its outbound path and its record.
pub mod Outbound
pub mod Registry
pub mod Tracker
pub mod Handshake
