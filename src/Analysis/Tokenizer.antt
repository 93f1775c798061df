-- ===== src/Analysis/Tokenizer.antt =====
-- analysis/tokenizer.go: text into tokens. What is a letter or punctuation
-- and the lower case of a rune are arguments, for the tables of package unicode.
pub mod Terms
use go_search.Base.{ℕ, ◌+◌, Bool, ◌||◌, List, [], ◌∷◌, ◌++◌, map, ◌==◌, if◌then◌else◌, length, Str}
use go_search.Base.Fields.{fields, is_space}
use go_search.Analysis.Token.{Token}

pub record Unicode : Type 0 where
  pub is_punct : ℕ → Bool
  pub is_letter : ℕ → Bool
  pub to_lower : ℕ → ℕ

-- The loop of the whitespace tokenizer over the words, which are never empty.
unfoldable pub number_words : ℕ → List Str → List Token
number_words i [] = []
number_words i (word ∷ words) = record { term = word; position = i } ∷ number_words (i + 1) words

unfoldable pub whitespace_tokenize : Str → List Token
unfolding number_words
whitespace_tokenize text = number_words 0 (fields text)

module _ (u : Unicode) where
  abbrev pub lower : Str → Str
  lower = map u.to_lower

  -- The end of a word: a token if there is something in the buffer.
  abbrev pub emit : Str → ℕ → (ℕ → List Token) → List Token
  emit [] position rest = rest position
  emit (r ∷ buffer) position rest =
      record { term = lower (r ∷ buffer); position = position } ∷ rest (position + 1)

  -- The loop of the standard tokenizer.
  unfoldable pub standard_from : Str → Str → ℕ → List Token
  standard_from [] buffer position = emit buffer position (λ p. [])
  standard_from (r ∷ text) buffer position =
      if is_space r || u.is_punct r
      then emit buffer position (standard_from text [])
      else standard_from text (if u.is_letter r then buffer ++ (r ∷ []) else buffer) position

  unfoldable pub standard_tokenize : Str → List Token
  unfolding standard_from
  standard_tokenize text = standard_from text [] 0
