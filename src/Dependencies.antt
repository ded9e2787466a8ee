-- ===== src/Dependencies.antt =====
-- crates/orphanode/src/analysis/dependencies.rs: which declared packages are used, and which used
-- packages are not declared. The names of packages stand in `Names`, the data types in `Facts`,
-- the reading of manifests and evidence in `Collect`, and the report itself in `Report`. The other
-- modules are about these: `Named`, `Bare`, `Requirement` and `Specified` about names, `Declared` about
-- the declarations, `Undeclared`, `Retention`, `Standing` and `Blocking` about the outcomes.
pub mod Names
pub mod Facts
pub mod Collect
pub mod Report
pub mod Grouping
pub mod Declared
pub mod Undeclared
pub mod Retention
pub mod Standing
pub mod Blocking
pub mod Parts
pub mod Named
pub mod Bare
pub mod Requirement
pub mod Specifiers
pub mod Specified
mod Samples
