-- ===== src/Symbols.antt =====
-- crates/orphanode/src/analysis/symbols.rs: which declarations of which files are live.
-- The search runs on nodes, the positions of the symbols in one list of all files. `Regions` finds
-- the regions that run when a file is loaded, `Graph` has the nodes and their edges, `Roots` what is
-- live from the start, `Analysis` the search and its report. A panic is `none`.
pub mod Lanes
pub mod Data
pub mod Regions
pub mod Graph
pub mod Roots
pub mod Analysis
pub mod Groups
