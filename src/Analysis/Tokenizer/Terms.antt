-- ===== src/Analysis/Tokenizer/Terms.antt =====
-- The terms and positions that analysis/tokenizer.go gives a text.
use go_search.Base.{
  ℕ, ◌+◌, ◌≡◌, refl, ap, ◌∙◌, Bool, true, false, ◌||◌, List, [], ◌∷◌, ◌++◌, map, if◌then◌else◌, Str,
  keep, append_assoc, zero, suc, Option, none, some, get_elem?, arith, append-nil, inl, inr,
  Bool-cases,
}
use go_search.Base.Fields.{is_space, end_word, fields_from, fields}
use go_search.Analysis.Token.{Token}
use go_search.Analysis.Tokenizer.{
  Unicode, number_words, whitespace_tokenize, lower, emit, standard_from, standard_tokenize,
}

-- The parts of a text between separators, the first one apart.
abbrev pub pieces : (ℕ → Bool) → Str → Str × List Str
pieces sep [] = ([], [])
pieces sep (r ∷ text) =
    let rest = pieces sep text in if sep r then ([], rest.0 ∷ rest.1) else (r ∷ rest.0, rest.1)

abbrev pub is_nonempty : Str → Bool
is_nonempty [] = false
is_nonempty (c ∷ s) = true

module _ (u : Unicode) where
  abbrev pub separates : ℕ → Bool
  separates r = is_space r || u.is_punct r

  -- The words of parts: their letters in lower case, where there are any.
  abbrev pub letters_of : List Str → List Str
  letters_of [] = []
  letters_of (part ∷ parts) = keep u.is_letter part ∷ letters_of parts

  abbrev words_of : List Str → List Str
  words_of parts = map (lower u) (keep is_nonempty parts)

  -- The specification: split at separators, keep the letters, drop what is empty.
  abbrev pub standard_terms : Str → List Str
  standard_terms text =
      let parts = pieces separates text in
      map (lower u) (keep is_nonempty (letters_of (parts.0 ∷ parts.1)))

  emit-words :
      (buffer : Str) (position : ℕ) (rest : ℕ → List Token) (parts : List Str)
      → ((p : ℕ) → rest p ≡ number_words p (words_of parts))
      → emit u buffer position rest ≡ number_words position (words_of (buffer ∷ parts))
  unfolding number_words keep
  emit-words [] position rest parts h = h position
  emit-words (r ∷ buffer) position rest parts h =
      ap (λ (t : List Token). record { term = lower u (r ∷ buffer); position = position } ∷ t)
        (h (position + 1))

  standard_from-words :
      (text buffer : Str) (position : ℕ)
      → standard_from u text buffer position
        ≡ number_words position (
            words_of (
              (buffer ++ keep u.is_letter (pieces separates text).0)
              ∷ letters_of (pieces separates text).1))
  unfolding standard_from keep number_words
  standard_from-words [] buffer position =
      rw (append-nil buffer) (emit-words buffer position (λ p. []) [] (λ p. refl))
  standard_from-words (r ∷ text) buffer position = elim (Bool-cases (separates r)) [
    | inl e ↦
        rw (e, append-nil buffer)
          (emit-words buffer position (standard_from u text [])
            (keep u.is_letter (pieces separates text).0 ∷ letters_of (pieces separates text).1)
            (λ p. standard_from-words text [] p))
    | inr e ↦ elim (Bool-cases (u.is_letter r)) [
      | inl l ↦
          rw (e, l)
            (standard_from-words text (buffer ++ (r ∷ [])) position
              ∙ rw (append_assoc buffer (r ∷ []) (keep u.is_letter (pieces separates text).0)))
      | inr l ↦ rw (e, l) (standard_from-words text buffer position)
    ]
  ]

  -- The standard tokenizer returns, numbered from 0, the lower-cased letters of those parts of the
  -- text between spaces and punctuation that have letters.
  pub standard_tokenize-terms :
      (text : Str) → standard_tokenize u text ≡ number_words 0 (standard_terms text)
  unfolding standard_tokenize
  standard_tokenize-terms text = standard_from-words text [] 0

-- The specification of `strings.Fields`: the parts between spaces that are not empty.
abbrev pub space_words : Str → List Str
space_words text = let parts = pieces is_space text in keep is_nonempty (parts.0 ∷ parts.1)

end_word-keep :
    (word : Str) (parts : List Str)
    → end_word word (keep is_nonempty parts) ≡ keep is_nonempty (word ∷ parts)
unfolding keep
end_word-keep [] parts = refl
end_word-keep (c ∷ word) parts = refl

fields_from-pieces :
    (text word : Str)
    → fields_from text word
      ≡ keep is_nonempty ((word ++ (pieces is_space text).0) ∷ (pieces is_space text).1)
unfolding fields_from keep
fields_from-pieces [] word = rw (append-nil word) (end_word-keep word [])
fields_from-pieces (c ∷ text) word = elim (Bool-cases (is_space c)) [
  | inl e ↦
      rw (e, append-nil word)
        (ap (end_word word) (fields_from-pieces text [])
          ∙ end_word-keep word ((pieces is_space text).0 ∷ (pieces is_space text).1))
  | inr e ↦ rw e (
      fields_from-pieces text (word ++ (c ∷ []))
      ∙ rw (append_assoc word (c ∷ []) (pieces is_space text).0))
]

-- The token with a word as its term at a position, where there is a word.
abbrev pub token_at : ℕ → Option Str → Option Token
token_at i none = none
token_at i (some word) = some (record { term = word; position = i })

get_elem-number_words :
    (words : List Str) (first i : ℕ)
    → get_elem? (number_words first words) i ≡ token_at (first + i) (get_elem? words i)
unfolding number_words
get_elem-number_words [] first i = refl
get_elem-number_words (word ∷ words) first zero = ap (λ n. token_at n (some word)) (omega arith)
get_elem-number_words (word ∷ words) first (suc i) =
    get_elem-number_words words (first + 1) i
    ∙ ap (λ n. token_at n (get_elem? words i)) (omega arith)

-- The token at an index of what the whitespace tokenizer returns has as its term the part of the
-- text with this index among the parts between spaces that are not empty, and the index as its
-- position, and there is no token at an index that no such part has.
pub whitespace_tokenize-space_words :
    (text : Str) (i : ℕ)
    → get_elem? (whitespace_tokenize text) i ≡ token_at i (get_elem? (space_words text) i)
unfolding whitespace_tokenize fields
whitespace_tokenize-space_words text i =
    get_elem-number_words (fields text) 0 i
    ∙ ap (λ n. token_at n (get_elem? (fields text) i)) {x = 0 + i} {y = i} (omega arith)
    ∙ ap (λ words. token_at i (get_elem? words i)) (fields_from-pieces text [])
