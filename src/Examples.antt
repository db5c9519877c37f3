-- ===== src/Examples.antt =====
-- The theorems at concrete inputs, for which their hypotheses hold.
mod Turns
mod Frames
mod Replies
mod Access
mod Services
mod Watchdogs
mod Bridges
mod Speech
mod Connection
mod Clients
