-- ===== src/Agents/Gather.antt =====
-- backend/app/agents/gather.py: the context of an intent, from the read-only tools.
pub mod Terms
pub mod Search
pub mod Node
