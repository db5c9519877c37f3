-- ===== src/Access.antt =====
-- Who may do what: core/agent_policy.py, core/network.py and the callers' authentication.
pub mod AgentPolicy
pub mod Network
pub mod Callers
pub mod Clients
