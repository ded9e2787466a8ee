-- ===== src/Cache.antt =====
-- crates/orphanode/src/cache: the parts of the cache with logic of their own.
pub mod Digest
