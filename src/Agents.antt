-- ===== src/Agents.antt =====
-- backend/app/agents: the nodes of one turn of the sales agent.
pub mod State
pub mod Turn
pub mod Classify
pub mod Gather
pub mod Purchase
pub mod Compose
pub mod Persist
pub mod Graph
pub mod Order
