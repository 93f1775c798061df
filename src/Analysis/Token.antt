-- ===== src/Analysis/Token.antt =====
-- `Token` of analysis/tokenizer.go.
use go_search.Base.{ℕ, Str}

pub record Token : Type 0 where
  pub term : Str
  pub position : ℕ
