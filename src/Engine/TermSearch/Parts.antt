-- ===== src/Engine/TermSearch/Parts.antt =====
-- The parts of an index term that the searches by terms of engine/search.go look at: the field and a
-- colon in front, and what stands between colons.
use go_search.Base.{
  ℕ, ◌≡◌, refl, ◌∙◌, Bool, true, false, ◌&&◌, ◌||◌, Option, none, some, List, [], ◌∷◌, ◌++◌,
  if◌then◌else◌, ◌==◌, length, take, drop, Str, same, arith, inl, inr, Bool-cases,
}
use mathlib.Core.Option
use go_search.Engine.TermSearch.{split_colon}

-- What follows a beginning of a text, and whether the text has a colon.
abbrev pub strip : Str → Str → Option Str
strip [] text = some text
strip (c ∷ start) [] = none
strip (c ∷ start) (e ∷ text) = if c == e then strip start text else none

abbrev pub has_colon : Str → Bool
has_colon [] = false
has_colon (c ∷ text) = c == b':' || has_colon text

abbrev pub until_colon : Str → Str
until_colon [] = []
until_colon (c ∷ text) = if c == b':' then [] else c ∷ until_colon text

abbrev pub all_have_colon : List Str → Bool
all_have_colon [] = true
all_have_colon (term ∷ terms) = has_colon term && all_have_colon terms

-- The word that an index term has for a field, up to a second colon. A field with a colon has none.
abbrev pub word_of : Str → Str → Option Str
word_of field term =
    if has_colon field then none else Option.map until_colon (strip (field ++ (b':' ∷ [])) term)

abbrev pub second_part : Str → Str × List Str → Option Str
second_part field (part, []) = none
second_part field (part, raw ∷ parts) = if same field part then some raw else none

split_colon-first : (term : Str) → (split_colon term).0 ≡ until_colon term
unfolding split_colon
split_colon-first [] = refl
split_colon-first (c ∷ term) = elim (Bool-cases (c == b':')) [
  | inl e ↦ rw e
  | inr e ↦ rw (e, split_colon-first term)
]

-- A term has a second part exactly when it has a colon.
abbrev pub has_second : Str × List Str → Bool
has_second (part, []) = false
has_second (part, raw ∷ parts) = true

pub split_colon-has_second : (term : Str) → has_second (split_colon term) ≡ has_colon term
unfolding split_colon
split_colon-has_second [] = refl
split_colon-has_second (c ∷ term) = elim (Bool-cases (c == b':')) [
  | inl e ↦ rw e
  | inr e ↦ rw e (has_second-cons c (split_colon term) ∙ split_colon-has_second term)
]
  where
    has_second-cons :
        (c : ℕ) (parts : Str × List Str) → has_second (c ∷ parts.0, parts.1) ≡ has_second parts
    has_second-cons c (part, []) = refl
    has_second-cons c (part, raw ∷ parts) = refl

second_part-other :
    (c : ℕ) (field : Str) (parts : Str × List Str) → second_part [] (c ∷ parts.0, parts.1) ≡ none
unfolding same
second_part-other c field (part, []) = refl
second_part-other c field (part, raw ∷ parts) = refl

second_part-cons :
    (c f : ℕ) (field : Str) (parts : Str × List Str)
    → second_part (f ∷ field) (c ∷ parts.0, parts.1)
      ≡ (if f == c then second_part field parts else none)
unfolding same
second_part-cons c f field (part, []) = ground arith
second_part-cons c f field (part, raw ∷ parts) = elim (Bool-cases (f == c)) [
  | inl e ↦ rw e
  | inr e ↦ rw e
]

pub split_colon-second_part :
    (field term : Str) → second_part field (split_colon term) ≡ word_of field term
unfolding split_colon same
split_colon-second_part [] [] = refl
split_colon-second_part [] (c ∷ term) = elim (Bool-cases (c == b':')) [
  | inl e ↦ let e' : (b':' == c) ≡ true = ground arith in rw (e, e', split_colon-first term)
  | inr e ↦
      let e' : (b':' == c) ≡ false = ground arith in
      rw (e, e') (second_part-other c [] (split_colon term))
]
split_colon-second_part (f ∷ field) [] = elim (Bool-cases (has_colon (f ∷ field))) [
  | inl e ↦ rw e
  | inr e ↦ rw e
]
split_colon-second_part (f ∷ field) (c ∷ term) = elim (Bool-cases (c == b':')) [
  | inl e ↦ elim (Bool-cases (f == b':')) [
    | inl d ↦ rw (e, d)
    | inr d ↦
        let d' : (f == c) ≡ false = ground arith in
        rw (e, d, d') (elim (Bool-cases (has_colon field)) [ inl h ↦ rw h | inr h ↦ rw h ])
  ]
  | inr e ↦ elim (Bool-cases (f == b':')) [
    | inl d ↦
        let d' : (f == c) ≡ false = ground arith in
        rw (e, d) (second_part-cons c f field (split_colon term) ∙ rw d')
    | inr d ↦
        rw (e, d)
          (second_part-cons c f field (split_colon term) ∙ elim (Bool-cases (f == c)) [
            | inl g ↦ rw g (split_colon-second_part field term)
            | inr g ↦ rw g (elim (Bool-cases (has_colon field)) [ inl h ↦ rw h | inr h ↦ rw h ])
          ])
  ]
]

pub strip-take :
    (start text : Str)
    → (if same (take (length start) text) start then some (drop (length start) text) else none)
      ≡ strip start text
unfolding same
strip-take [] text = refl
strip-take (c ∷ start) [] = refl
strip-take (c ∷ start) (e ∷ text) = elim (Bool-cases (c == e)) [
  | inl h ↦ let h' : (e == c) ≡ true = ground arith in rw (h, h') (strip-take start text)
  | inr h ↦ let h' : (e == c) ≡ false = ground arith in rw (h, h')
]
