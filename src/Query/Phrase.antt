-- ===== src/Query/Phrase.antt =====
-- query/phrase.go: the terms of a phrase at consecutive positions.
use go_search.Base.{
  ℕ, ◌+◌, ◌≡◌, refl, ◌∙◌, ◌↔◌, ◌⊎◌, inl, inr, Bool, true, false, ◌||◌, Option, none, some, List, [],
  ◌∷◌, ◌==◌, if◌then◌else◌, Str, arith, ◌∈◌, Bool-cases,
}
use mathlib.Core.Path.{subst}
use go_search.Base.Map.{Map, lookup, lookup_or}
use go_search.Index.Posting.{Posting, no_posting}

unfoldable pub contains_position : List ℕ → ℕ → Bool
contains_position [] target = false
contains_position (p ∷ positions) target = p == target || contains_position positions target

-- How the loop over the later terms ends: all fit, one does not, or one has no positions at all,
-- which ends the whole search.
pub data Round : Type 0 where
  matched mismatch gives_up : Round

-- What the positions of one later term decide, given the rest of the loop.
unfoldable pub positions_round : List ℕ → ℕ → Round → Round
positions_round [] target rest = gives_up
positions_round (p ∷ ps) target rest = if contains_position (p ∷ ps) target then rest else mismatch

unfoldable pub term_round : Option Posting → ℕ → Round → Round
unfolding positions_round
term_round none target rest = gives_up
term_round (some posting) target rest = positions_round posting.positions target rest

unfoldable pub round : List Str → Map Posting → ℕ → ℕ → Round
unfolding term_round
round [] doc position i = matched
round (term ∷ terms) doc position i =
    term_round (lookup term doc) (position + i + 1) (round terms doc position (i + 1))

-- What the outer loop makes of a round, given its later rounds.
unfoldable pub after_round : Round → Bool → Bool
after_round matched more = true
after_round mismatch more = more
after_round gives_up more = false

unfoldable pub phrase_from : List ℕ → List Str → Map Posting → Bool
unfolding after_round
phrase_from [] terms doc = false
phrase_from (position ∷ positions) terms doc =
    after_round (round terms doc position 0) (phrase_from positions terms doc)

unfoldable pub phrase_match : List Str → Map Posting → Bool
unfolding phrase_from
phrase_match [] doc = false
phrase_match (term ∷ terms) doc = phrase_from (lookup_or no_posting term doc).positions terms doc

-- The specification: every term stands one place behind the term before it.
abbrev pub At : Map Posting → Str → ℕ → Type 0
At doc term p = (posting : Posting) × (lookup term doc ≡ some posting) × (p ∈ posting.positions)

abbrev pub Follows : Map Posting → List Str → ℕ → Type 0
Follows doc [] p = Unit
Follows doc (term ∷ terms) p = At doc term p × Follows doc terms (p + 1)

pub contains_position_iff :
    (positions : List ℕ) (p : ℕ) → (contains_position positions p ≡ true) ↔ (p ∈ positions)
unfolding contains_position
contains_position_iff [] p = ground arith
contains_position_iff (q ∷ positions) p = ground (arith, contains_position_iff positions p)

positions_found :
    (ps : List ℕ) (target : ℕ) (rest : Round) → target ∈ ps → positions_round ps target rest ≡ rest
unfolding positions_round
positions_found [] target rest m = absurd m
positions_found (p ∷ ps) target rest m = ground (arith, contains_position_iff (p ∷ ps) target)

positions_matched :
    (ps : List ℕ) (target : ℕ) (rest : Round)
    → positions_round ps target rest ≡ matched
    → (target ∈ ps) × (rest ≡ matched)
unfolding positions_round
positions_matched [] target rest h = absurd (cc)
positions_matched (p ∷ ps) target rest h = elim (Bool-cases (contains_position (p ∷ ps) target)) [
  | inl e ↦ ((contains_position_iff (p ∷ ps) target).0 e, ground arith)
  | inr e ↦ absurd (ground arith)
]

positions_gives_up :
    (ps : List ℕ) (target q : ℕ) (rest : Round)
    → q ∈ ps
    → positions_round ps target rest ≡ gives_up
    → rest ≡ gives_up
unfolding positions_round
positions_gives_up [] target q rest m h = absurd m
positions_gives_up (p ∷ ps) target q rest m h = ground arith

term_matched :
    (o : Option Posting) (target : ℕ) (rest : Round)
    → term_round o target rest ≡ matched
    → ((posting : Posting) × (o ≡ some posting) × (target ∈ posting.positions)) × (rest ≡ matched)
unfolding term_round
term_matched none target rest h = absurd (cc)
term_matched (some posting) target rest h =
    let (m, e) = positions_matched posting.positions target rest h in ((posting, refl, m), e)

-- A round finds all terms in place exactly when they follow; one that gives up rules out every place.
round_sound :
    (terms : List Str) (doc : Map Posting) (p i : ℕ)
    → round terms doc p i ≡ matched
    → Follows doc terms (p + i + 1)
unfolding round
round_sound [] doc p i h = tt
round_sound (term ∷ terms) doc p i h =
    let (found, e) = term_matched (lookup term doc) (p + i + 1) _ h in
    (found, subst (Follows doc terms) (omega arith) (round_sound terms doc p (i + 1) e))

round_complete :
    (terms : List Str) (doc : Map Posting) (p i : ℕ)
    → Follows doc terms (p + i + 1)
    → round terms doc p i ≡ matched
unfolding round term_round
round_complete [] doc p i h = refl
round_complete (term ∷ terms) doc p i ((posting, e, m), rest) = rw e (
    positions_found posting.positions (p + i + 1) _ m
    ∙ round_complete terms doc p (i + 1) (subst (Follows doc terms) (omega arith) rest))

round_gives_up :
    (terms : List Str) (doc : Map Posting) (p i q : ℕ)
    → round terms doc p i ≡ gives_up
    → Follows doc terms q
    → ⊥
unfolding round term_round
round_gives_up [] doc p i q h f = cc
round_gives_up (term ∷ terms) doc p i q h ((posting, e, m), rest) =
    round_gives_up terms doc p (i + 1) (q + 1)
      (positions_gives_up posting.positions (p + i + 1) q _ m (rw e at h)) rest

after_round-true :
    (r : Round) (more : Bool) → after_round r more ≡ true → (r ≡ matched) ⊎ (more ≡ true)
unfolding after_round
after_round-true matched more h = inl refl
after_round-true mismatch more h = inr h
after_round-true gives_up more h = absurd (cc)

phrase_from_sound :
    (positions : List ℕ) (terms : List Str) (doc : Map Posting)
    → phrase_from positions terms doc ≡ true
    → (p : ℕ) × (p ∈ positions) × Follows doc terms (p + 1)
unfolding phrase_from
phrase_from_sound [] terms doc h = absurd (cc)
phrase_from_sound (p ∷ positions) terms doc h = elim (after_round-true (round terms doc p 0) _ h) [
  | inl e ↦ (p, inl refl, subst (Follows doc terms) (omega arith) (round_sound terms doc p 0 e))
  | inr more ↦ let (q, m, f) = phrase_from_sound positions terms doc more in (q, inr m, f)
]

phrase_from_complete :
    (positions : List ℕ) (terms : List Str) (doc : Map Posting) (p : ℕ)
    → p ∈ positions
    → Follows doc terms (p + 1)
    → phrase_from positions terms doc ≡ true
unfolding phrase_from
phrase_from_complete [] terms doc p m f = absurd m
phrase_from_complete (q ∷ positions) terms doc p (inl e) f =
    rw (round_complete terms doc q 0 (subst (Follows doc terms) (omega arith) f))
phrase_from_complete (q ∷ positions) terms doc p (inr m) f = ground (
  arith,
  phrase_from_complete positions terms doc p m f,
  λ (h : round terms doc q 0 ≡ gives_up). round_gives_up terms doc q 0 (p + 1) h f,
)

phrase_sound :
    (term : Str) (terms : List Str) (doc : Map Posting) (o : Option Posting)
    → lookup term doc ≡ o
    → phrase_match (term ∷ terms) doc ≡ true
    → (p : ℕ) × At doc term p × Follows doc terms (p + 1)
unfolding phrase_match phrase_from
phrase_sound term terms doc none e h = absurd (let h' : false ≡ true = rw e at h in cc)
phrase_sound term terms doc (some posting) e h =
    let (p, m, f) = phrase_from_sound posting.positions terms doc (rw e at h) in
    (p, (posting, e, m), f)

-- A phrase with a first term matches exactly when that term has a position from which each later
-- term has a posting one place behind the term before it; the early returns for a missing term
-- lose no match.
pub phrase_match_iff :
    (term : Str) (terms : List Str) (doc : Map Posting)
    → (phrase_match (term ∷ terms) doc ≡ true)
      ↔ ((p : ℕ) × At doc term p × Follows doc terms (p + 1))
unfolding phrase_match
phrase_match_iff term terms doc = (
  phrase_sound term terms doc (lookup term doc) refl,
  λ (p, (posting, e, m), f). rw e (phrase_from_complete posting.positions terms doc p m f),
)
