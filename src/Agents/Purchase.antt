-- ===== src/Agents/Purchase.antt =====
-- backend/app/agents/purchase.py: the confirmation-gated purchase flow.
pub mod Detect
pub mod Pending
pub mod Stock
pub mod Node
