-- ===== src/Stdio.antt =====
-- The stdio owner (apps/samgita_codex_driver/priv/stdio_owner.py): a helper that starts one child,
-- forwards its streams and reaps its process group.
pub mod Bytes
pub mod Reaping
pub mod Group
pub mod Owner
mod Examples
