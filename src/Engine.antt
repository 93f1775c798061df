-- ===== src/Engine.antt =====
-- engine/: the engine's schema.
pub mod Schema
pub mod Document
pub mod Paging
pub mod Expand
pub mod Filters
pub mod Highlight
pub mod Searcher
pub mod Search
pub mod State
pub mod Aggregation
pub mod TermSearch
pub mod DocStore
