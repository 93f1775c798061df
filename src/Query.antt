-- ===== src/Query.antt =====
-- query/: boolean queries and how a document's postings answer them.
pub mod Clause
pub mod Phrase
pub mod Match
