-- ===== src/Index.antt =====
-- index/: the inverted index and its parts.
pub mod Posting
pub mod Trie
pub mod KdTree
pub mod Segment
pub mod Inverted
pub mod FieldIndex
pub mod NumericBlock
pub mod Numeric
