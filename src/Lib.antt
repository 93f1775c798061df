-- ===== src/Lib.antt =====
-- go-search, a full-text search library in Go: documents are analyzed into terms, the terms go
-- into an inverted index (buffer, immutable segments, tombstones), numeric values into a K-D
-- tree, and documents are kept in a key-value store. A query is matched against the postings of
-- one document.
--
-- Base holds the shared helpers: native naturals, strings as lists of runes or bytes, maps as
-- association lists, and an abstract float64.
-- Storage/Local.antt models storage/local/local.go: `Store` is the file's bytes, the index of
-- entries and whether the handle is open. `put`, `remove`, `get`, `each`, `compact` and
-- `open_file` are Put, Delete, get, Each, Compact and New. The outcome of each write is an
-- argument (`Disk`, `CompactDisk`), and a slice out of range is a value (`panics`). The loop of
-- loadEntries has fuel for one round more than the file has bytes, which is enough since each
-- round passes nine of them. The children of Local hold the proofs.
-- Index/Posting, Index/Segment and Index/Inverted model index/index.go and index/segment.go. A
-- call holds the index's lock from its start to its end, so it is one step; Merge is two,
-- `merge_view` and `merge_swap`, and Index/Inverted/Steps.antt has the steps in any order. Lookup
-- asks the segments in parallel, so the order in which they report is an argument. The tokens
-- that the analyzer makes of a text are an argument.
-- Index/Trie.antt models index/trie.go, Index/KdTree.antt and Index/KdTree/Ranges.antt model
-- index/kdtree.go; sort.Slice and sort.Strings are arguments, and each level of the build halves
-- the entries, so as many levels as there are entries are enough. An entry of the tree shares its
-- map of values with the index, and `add_numeric` writes to both.
-- Index/FieldIndex.antt models index/field_index.go; each search of Range halves its part, and
-- one round more than there are entries is enough.
-- Index/NumericBlock.antt and Index/Numeric.antt model index/numeric.go over a storage that is a
-- map;
-- each level of buildTree halves the leaves, each round of Flush's loop takes an entry, and each
-- round of the binary search halves its part, so their fuel is enough.
-- Storage/Memory.antt models storage/memory/memory.go, Engine/Schema.antt models
-- engine/mapping.go.
-- Engine/DocStore.antt models engine/docstore.go. Engine/Document.antt and Engine/Paging.antt
-- model the
-- documents, the options and applyPagination of engine/engine.go and engine/search.go.
-- Engine/Expand.antt models the synonyms, Engine/Filters.antt the filters, Engine/Highlight.antt
-- engine/highlight.go, Scoring.antt scoring/bm25.go over abstract float64 operations.
-- Engine/Searcher.antt is what a search reads of an engine, with scoreDoc; Engine/Search.antt is
-- Search with both of its paths, and engine/sort.go. What the indexes and the storage answer to a
-- search are functions of the record `Searcher`; `searcher_of` in Engine/State.antt makes one of an
-- engine. Engine/State.antt has the state of an engine, Index, Delete and the replay of the log of
-- wal/wal.go over a storage with the operations of storage/storage.go (Storage/KeyValue.antt).
-- Engine/Aggregation.antt models engine/aggregation.go, Engine/TermSearch.antt the searches by
-- terms, where FuzzySearch's index out of range on a term without a colon is `none`.
-- Analysis/EditDistance.antt models analysis/fuzzy.go on code points or bytes alike.
-- Analysis/Tokenizer and Analysis/Analyzer model analysis/tokenizer.go, analysis/filter.go and
-- analysis/analyzer.go.
-- Query/Clause, Query/Match and Query/Phrase model query/query.go, query/match.go and
-- query/phrase.go.
-- Not modelled: Insert of index/kdtree.go, which the library does not call and whose append writes
-- into the array that a leaf shares with its sibling, the vector searches and the snapshots of
-- engine/, the file of wal/, the S3 stub, the example program, and the goroutines, timers and locks themselves.
pub mod Base
pub mod Scoring
pub mod Storage
pub mod Analysis
pub mod Index
pub mod Query
pub mod Tests
pub mod Engine
