-- ===== src/Watch.antt =====
-- src/shared/watch: what is watched, and the category of a watched path. Paths are strings that the
-- code walks, so they are lists of code units.
pub mod Policy
pub mod Ingest
pub mod Hub
