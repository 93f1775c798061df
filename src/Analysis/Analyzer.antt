-- ===== src/Analysis/Analyzer.antt =====
-- analysis/analyzer.go and analysis/filter.go: a tokenizer, and filters one after the other.
pub mod Positions
use go_search.Base.{ℕ, Bool, not, List, [], ◌∷◌, map, Str, keep}
use go_search.Base.Map.{insert, has, StrSet}
use go_search.Analysis.Token.{Token}
use go_search.Analysis.Tokenizer.{Unicode, lower, whitespace_tokenize, standard_tokenize}

-- The two implementations of each interface.
pub data Tokenizing : Type 0 where
  whitespace standard : Tokenizing

pub data TokenFilter : Type 0 where
  lowercase : TokenFilter
  stop_words : StrSet → TokenFilter

pub record Analyzer : Type 0 where
  pub tokenizer : Tokenizing
  pub filters : List TokenFilter

module _ (u : Unicode) where
  -- `NewStopWordFilter` and `Add`: the words of a filter with more words.
  unfoldable pub stop_set : List Str → StrSet → StrSet
  stop_set [] words = words
  stop_set (word ∷ more) words = stop_set more (insert (lower u word) tt words)

  unfoldable pub tokenize : Tokenizing → Str → List Token
  tokenize whitespace text = whitespace_tokenize text
  tokenize standard text = standard_tokenize u text

  unfoldable pub lowercase_tokens : List Token → List Token
  lowercase_tokens [] = []
  lowercase_tokens (token ∷ tokens) =
      record { term = lower u token.term; position = token.position } ∷ lowercase_tokens tokens

  unfoldable pub stop_tokens : StrSet → List Token → List Token
  stop_tokens words = keep (λ token. not (has token.term words))

  unfoldable pub filter_tokens : TokenFilter → List Token → List Token
  unfolding lowercase_tokens stop_tokens
  filter_tokens lowercase tokens = lowercase_tokens tokens
  filter_tokens (stop_words words) tokens = stop_tokens words tokens

  unfoldable pub filter_all : List TokenFilter → List Token → List Token
  unfolding filter_tokens
  filter_all [] tokens = tokens
  filter_all (filter ∷ filters) tokens = filter_all filters (filter_tokens filter tokens)

  unfoldable pub analyze : Analyzer → Str → List Token
  unfolding tokenize filter_all
  analyze a text = filter_all a.filters (tokenize a.tokenizer text)
