-- ===== src/Agent.antt =====
-- The agent: agent/tools/registry.py and agent/runtime.py.
pub mod Tools
pub mod Messages
pub mod Runtime
mod Tests
