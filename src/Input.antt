-- ===== src/Input.antt =====
-- scripts/codex/generate_input_semantics.py: which requests a correction of a definition is about.
pub mod Reach
mod Examples
