-- ===== src/Inventory.antt =====
-- The compatibility inventory of the pinned Codex schemas (scripts/codex/inventory.py).
pub mod Access
pub mod Variants
pub mod Alternatives
pub mod Contracts
pub mod Walk
pub mod Pointers
pub mod Progress
pub mod Gate
mod Examples
