-- ===== src/Release.antt =====
-- scripts/release.py: the coordinated version of the packages.
pub mod Version
pub mod Declarations
pub mod Replace
pub mod Changes
pub mod Staging
mod Examples
