-- ===== src/Engine/Highlight.antt =====
-- `HighlightDoc` of engine/highlight.go.
use go_search.Base.{Bool, true, false, List, [], ◌∷◌, ◌++◌, if◌then◌else◌, Str}
use go_search.Base.Map.{Map, insert, has, StrSet}
use go_search.Base.Fields.{fields, join_space}
use go_search.Analysis.Token.{Token}
use go_search.Engine.Document.{Document, Field, Highlight}

-- `termSet`
abbrev pub set_of : List Str → StrSet → StrSet
set_of [] set = set
set_of (t ∷ terms) set = set_of terms (insert t tt set)

-- Whether the first token of a word is one of the terms.
abbrev pub first_is_in : StrSet → List Token → Bool
first_is_in set [] = false
first_is_in set (token ∷ tokens) = has token.term set

module _ (analyze : Str → List Token) (marker_open marker_close : Str) where
  -- The loop over the words: the words with markers, and `matched`.
  unfoldable pub mark_words : StrSet → List Str → List Str × Bool
  mark_words set [] = ([], false)
  mark_words set (word ∷ words) =
      let (marked, matched) = mark_words set words in
      if first_is_in set (analyze word)
      then (((marker_open ++ (word ++ marker_close)) ∷ marked), true)
      else (word ∷ marked, matched)

  unfoldable pub highlight_fields : {F : Type 0} → StrSet → Map (Field F) → List Highlight
  unfolding mark_words
  highlight_fields set [] = []
  highlight_fields set ((name, field) ∷ rest) =
      let more = highlight_fields set rest in
      let (words, matched) = mark_words set (fields field.value) in
      if matched then record { field = name; snippet = join_space words } ∷ more else more

  unfoldable pub highlight_doc : {F : Type 0} → Document F → List Str → List Highlight
  unfolding highlight_fields
  highlight_doc doc terms = highlight_fields (set_of terms []) doc.fields
