-- ===== src/Fixes.antt =====
-- crates/orphanode/src/fixes: what may be removed, and how the files are edited.
pub mod ProjectPath
pub mod Packages
pub mod Plan
pub mod Apply
pub mod Eligibility
