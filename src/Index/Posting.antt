-- ===== src/Index/Posting.antt =====
-- `Posting` of index/index.go: the occurrences of one term in one document.
use go_search.Base.{ℕ, List, [], Str}

pub record Posting : Type 0 where
  pub doc_id : Str
  pub frequency : ℕ
  pub positions : List ℕ

-- The zero value, which a lookup of a missing key gives.
abbrev pub no_posting : Posting
no_posting = record { doc_id = []; frequency = 0; positions = [] }
