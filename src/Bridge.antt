-- ===== src/Bridge.antt =====
-- services/bridge.py: what one connected client's bridge does with the pushes of the agent, and how
-- its watchdogs decide.
pub mod Push
pub mod Input
pub mod UserTurns
pub mod Watchdogs
