-- ===== src/Analysis/Analyzer/Positions.antt =====
-- The positions of the tokens that an analyzer returns.
use go_search.Base.{ℕ, ◌+◌, ◌≤◌, Bool, not, List, [], ◌∷◌, Str, keep, arith, inl, inr, Bool-cases}
use mathlib.Core.Path.{subst, sym}
use go_search.Base.Fields.{fields}
use go_search.Base.Map.{has}
use go_search.Analysis.Token.{Token}
use go_search.Analysis.Tokenizer.{Unicode, number_words, whitespace_tokenize}
use go_search.Analysis.Tokenizer.Terms.{standard_terms, standard_tokenize-terms}
use go_search.Analysis.Analyzer.{
  Tokenizing, whitespace, standard, TokenFilter, lowercase, stop_words, Analyzer, tokenize,
  lowercase_tokens, stop_tokens, filter_tokens, filter_all, analyze,
}

-- Strictly increasing positions, from `low` on.
abbrev pub Increasing : ℕ → List Token → Type 0
Increasing low [] = Unit
Increasing low (token ∷ tokens) = (low ≤ token.position) × Increasing (token.position + 1) tokens

Increasing-lower :
    (low high : ℕ) (tokens : List Token)
    → low ≤ high
    → Increasing high tokens
    → Increasing low tokens
Increasing-lower low high [] h inc = tt
Increasing-lower low high (token ∷ tokens) h (le, inc) = (omega arith, inc)

number_words-Increasing : (i : ℕ) (words : List Str) → Increasing i (number_words i words)
unfolding number_words
number_words-Increasing i [] = tt
number_words-Increasing i (word ∷ words) = (omega arith, number_words-Increasing (i + 1) words)

keep-Increasing :
    (p : Token → Bool) (low : ℕ) (tokens : List Token)
    → Increasing low tokens
    → Increasing low (keep p tokens)
unfolding keep
keep-Increasing p low [] inc = tt
keep-Increasing p low (token ∷ tokens) (le, inc) = elim (Bool-cases (p token)) [
  | inl e ↦ rw e (le, keep-Increasing p (token.position + 1) tokens inc)
  | inr e ↦ rw e (
      Increasing-lower low (token.position + 1) (keep p tokens) (omega arith)
        (keep-Increasing p (token.position + 1) tokens inc))
]

module _ (u : Unicode) where
  lowercase-Increasing :
      (low : ℕ) (tokens : List Token)
      → Increasing low tokens
      → Increasing low (lowercase_tokens u tokens)
  unfolding lowercase_tokens
  lowercase-Increasing low [] inc = tt
  lowercase-Increasing low (token ∷ tokens) (le, inc) =
      (le, lowercase-Increasing (token.position + 1) tokens inc)

  filter_all-Increasing :
      (filters : List TokenFilter) (tokens : List Token)
      → Increasing 0 tokens
      → Increasing 0 (filter_all u filters tokens)
  unfolding filter_all filter_tokens stop_tokens
  filter_all-Increasing [] tokens inc = inc
  filter_all-Increasing (lowercase ∷ filters) tokens inc =
      filter_all-Increasing filters (lowercase_tokens u tokens) (lowercase-Increasing 0 tokens inc)
  filter_all-Increasing (stop_words words ∷ filters) tokens inc =
      filter_all-Increasing filters (stop_tokens u words tokens)
        (keep-Increasing (λ token. not (has token.term words)) 0 tokens inc)

  tokenize-Increasing : (t : Tokenizing) (text : Str) → Increasing 0 (tokenize u t text)
  unfolding tokenize whitespace_tokenize
  tokenize-Increasing whitespace text = number_words-Increasing 0 (fields text)
  tokenize-Increasing standard text =
      subst (Increasing 0) (sym (standard_tokenize-terms u text))
        (number_words-Increasing 0 (standard_terms u text))

  -- The tokens that an analyzer returns have strictly increasing positions, for either tokenizer
  -- and any sequence of lowercase and stop word filters.
  pub analyze-Increasing : (a : Analyzer) (text : Str) → Increasing 0 (analyze u a text)
  unfolding analyze
  analyze-Increasing a text =
      filter_all-Increasing a.filters (tokenize u a.tokenizer text)
        (tokenize-Increasing a.tokenizer text)
