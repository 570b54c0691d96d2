-- ===== src/CrashTail.antt =====
-- The crash controller (scripts/codex/ordinary_crash_tail_controller.py): it sends one SIGKILL to a
-- native process after checking that the process and its helper are the ones that it owns.
pub mod Proc
pub mod Spec
pub mod Checks
pub mod Run
mod Examples
