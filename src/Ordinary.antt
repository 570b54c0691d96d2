-- ===== src/Ordinary.antt =====
-- The runner of the reviewed ordinary checks (scripts/codex/check_ordinary.py).
pub mod Files
pub mod Selection
pub mod Counts
pub mod Child
pub mod Execution
mod Examples
