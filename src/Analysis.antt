-- ===== src/Analysis.antt =====
-- analysis/: from a text to its tokens.
pub mod Token
pub mod Tokenizer
pub mod Analyzer
pub mod EditDistance
