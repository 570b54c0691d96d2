-- ===== src/Rust.antt =====
-- scripts/codex/generate_gates.py: how declarations are found in the pinned Rust sources.
pub mod Bodies
pub mod Fields
mod Examples
