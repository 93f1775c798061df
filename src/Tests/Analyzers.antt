-- ===== src/Tests/Analyzers.antt =====
-- analysis/ on concrete inputs.
use go_search.Base.{◌+◌, ◌≡◌, refl, ◌&&◌, [], ◌∷◌, codes, leb, ◌==◌, get_elem?, some}
use go_search.Base.Fields.{fields, is_space}
use go_search.Analysis.Tokenizer.{Unicode, number_words, whitespace_tokenize, standard_tokenize}
use go_search.Analysis.Tokenizer.Terms.{
  standard_terms, standard_tokenize-terms, space_words, token_at, whitespace_tokenize-space_words,
}
use go_search.Analysis.Analyzer.{Analyzer, standard, lowercase, stop_words, analyze}
use go_search.Analysis.Analyzer.Positions.{Increasing, analyze-Increasing}

-- The classes of ASCII that the texts here use.
abbrev ascii : Unicode
ascii = record {
  is_punct = λ r. r == b'.';
  is_letter = λ r. leb 65 r && leb r 90;
  to_lower = λ r. r + 32;
}

standard_tokenize-terms_example :
    standard_tokenize ascii (codes "A1.. B")
    ≡ number_words 0 (standard_terms ascii (codes "A1.. B"))
standard_tokenize-terms_example = standard_tokenize-terms ascii (codes "A1.. B")

whitespace_tokenize-space_words_example :
    get_elem? (whitespace_tokenize (codes " a  bc")) 1
    ≡ token_at 1 (get_elem? (space_words (codes " a  bc")) 1)
whitespace_tokenize-space_words_example = whitespace_tokenize-space_words (codes " a  bc") 1

second_word :
    get_elem? (whitespace_tokenize (codes " a  bc")) 1
    ≡ some (record { term = codes "bc"; position = 1 })
unfolding whitespace_tokenize is_space fields
second_word = refl

abbrev stopping : Analyzer
stopping = record {
  tokenizer = standard;
  filters = lowercase ∷ stop_words ((codes "a", tt) ∷ []) ∷ [];
}

analyze-Increasing_example : Increasing 0 (analyze ascii stopping (codes "A BC"))
analyze-Increasing_example = analyze-Increasing ascii stopping (codes "A BC")
