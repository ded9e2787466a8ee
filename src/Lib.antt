-- ===== src/Lib.antt =====
-- Orphanode: a verification library for the core of the `orphanode` crate, which finds files,
-- class members and dependencies of JavaScript and TypeScript projects that nothing uses, and
-- plans their removal.
--
-- The parts and how they work together. A scan interns names, builds the graph of files and asks
-- which files the entries reach; the symbol analysis asks which declarations of these files are
-- used, and groups the dead ones that use each other; the rules for class members and the dependency analysis then
-- classify what is left over. Where a finding is sure enough, the eligibility check lets it become
-- a change in a fix plan; the plan is validated, and its edits are applied to the files.
--
-- Which module models which file (paths from the root of the repository):
-- Interner: crates/orphanode/src/domain/ids.rs (`StringInterner::intern` and `get`; `get` is
--   `lookup`).
-- Targets: crates/orphanode/src/domain/target.rs (`resolve_target_profiles`, `resolve_profile`).
-- FileGraph: crates/orphanode/src/domain/graph.rs (`FileGraph::new`, `add_edge`, `finish`,
--   `reachable_from`, `reachable_from_many`). FileGraph.Components has `components_within` and
--   `reversed`.
-- Search: the breadth-first worklist of `reachable_from_many`, `active_eager_regions` and
--   `analyze_symbols`. Its flags are an interface, `Board`; `mark` is the test and the marking of
--   one vertex, `expand` one round, `drain` the `while let` loop. Search.Vector is a vector of
--   flags, Symbols.Lanes a vector of pairs of them.
-- Components: the two depth-first searches of `components_within` and of
--   `dead_strongly_connected_components`: `advance` is one round of the first, `finishing_order`
--   the whole of it, `gather` the collection of one component, `assign` the loop over the starts.
-- Facts: crates/orphanode/src/domain/facts.rs (all data types and their methods).
-- Symbols: crates/orphanode/src/analysis/symbols.rs. Symbols.Data has the data types,
--   Symbols.Regions `active_eager_regions`, Symbols.Graph the nodes and edges, Symbols.Roots what
--   is marked before the search, Symbols.Analysis the search and the reports on the files,
--   Symbols.Groups the dead symbols, their groups, `analyze_symbols` as a whole and
--   `SymbolAnalysisResult::liveness`.
-- Evidence: crates/orphanode/src/domain/evidence.rs (`EvidenceGraph::add_node`, `add_edge` and
--   `node`, which is `find_node`).
-- Members: crates/orphanode/src/analysis/members.rs (`analyze_member`, `analyze_members` and all
--   they call). Members.Facts has the data types.
-- Dependencies: crates/orphanode/src/analysis/dependencies.rs. Dependencies.Names has
--   `package_name`, `npm_alias_target` and the names of binaries; Dependencies.Facts the data types;
--   Dependencies.Collect the functions that read manifests, evidence and blockers;
--   Dependencies.Report `declaration_outcome` and `analyze_dependencies`. Dependencies.Declared says
--   which packages the manifests declare, apart from the code.
-- Cache.Digest: crates/orphanode/src/cache/digest.rs (`Digest::from_hex`, `Digest::to_hex`).
-- Fixes.Eligibility: crates/orphanode/src/fixes/eligibility.rs (`FixCandidate::evaluate`).
-- Fixes.ProjectPath and Fixes.Plan: crates/orphanode/src/fixes/plan.rs (`ProjectPath`, `FixPlan`
--   with its operations and `validate`).
-- Fixes.Packages: crates/orphanode/src/fixes/package_manager.rs (removal commands, their
--   construction and `validate`).
-- Fixes.Apply: crates/orphanode/src/fixes/apply.rs (`apply_edits`).
-- Common: what these share. Common.Maps has `BTreeMap` and `BTreeSet` as lists in the order of
--   their keys, Common.Vectors vectors of vectors, Common.Loops and Common.Kept the loops that
--   collect and filter, Common.Order the derived orders, Common.Sorting `sort` and `dedup`, Common.Text the
--   methods of `str`, Common.FilePath `Path::components`, Common.Result the `?` operator.
--
-- How the model stands to the code. A `String` is the list of its code points, and `len` counts
-- its UTF-8 bytes. Numbers are unbounded; where the code checks a width or a range, the check is
-- written out. Indexing out of range and a failing `expect` are values (`none`, `panicked`).
-- Methods that change `self` return the new value. Paths are those of Unix.
--
-- Fuel. The worklist of FileGraph gets one round for each file, that of the symbols one for each
-- node and lane, that of the regions one for each region number: each round takes a vertex from the
-- queue, and a vertex is queued only when it is marked. The first depth-first search gets one round
-- for each vertex and each edge, the second one for each vertex. `package_name` gets one call for each
-- character of the specifier and one more: each call of it through `npm_requirement_package` takes
-- the four characters `npm:` off. `resolve_profile` gets one call for each
-- definition and one more: a name that is being visited is not visited again. All other loops are recursion on the lists that they run over.
--
-- Not modelled: what calls third-party packages on their own data (the syntax trees of oxc, the
-- resolver, serde, TOML and YAML), file and process input and output, SHA-256, the rendering of
-- reports, and for now `EvidenceGraph::shortest_path`, the engine that runs a fix plan, script and
-- plugin parsing.
pub mod Common
pub mod Search
pub mod Components
pub mod Evidence
pub mod FileGraph
pub mod Facts
pub mod Interner
pub mod Members
pub mod Cache
pub mod Dependencies
pub mod Fixes
pub mod Symbols
pub mod Targets
