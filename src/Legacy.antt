-- ===== src/Legacy.antt =====
-- scripts/check_legacy_runtime.py: identifiers of the replaced runtime are rejected.
pub mod Scan
mod Examples
