-- ===== src/Tests.antt =====
-- The development's theorems on concrete inputs.
mod Sorters
mod LocalStore
mod Queries
mod Indexes
mod FieldIndexes
mod Schemas
mod Analyzers
mod Numbers
mod Pages
mod Searches
mod Engines
mod Aggregates
mod TermSearches
