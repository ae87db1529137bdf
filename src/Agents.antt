-- ===== src/Agents.antt =====
-- Which agents run, when they are updated, and what they may use (internal/coordinator,
-- internal/agentupdate, internal/usage).
pub mod Budget
pub mod Pick
pub mod Policy
pub mod Gate
pub mod Price
mod Tests
