-- ===== src/Base/Map.antt =====
-- Go maps with string keys, as association lists in which a key stands once. An iteration goes
-- through the list in its order: Go leaves the order open.
use go_search.Base.Tests.{if◌then◌else◌, is_some, Bool-cases}
use go_search.Base.Text.{Str, same, same_iff}
use mathlib.Core.Path.{◌≡◌, refl, ◌∙◌, subst}
use mathlib.Core.Logic.{inl, inr}
use mathlib.Core.Bool.{Bool, false}
use mathlib.Core.List.{List, [], ◌∷◌, map}
use mathlib.Core.Option.{Option, none, some}
use native.Mathlib.Omega.{arith}

abbrev pub Map {ℓ} : Type ℓ → Type ℓ
Map V = List (Str × V)

module _ {ℓ} {V : Type ℓ} where
  -- `v, ok := m[k]`
  unfoldable pub lookup : Str → Map V → Option V
  lookup k [] = none
  lookup k ((j, v) ∷ m) = if same j k then some v else lookup k m

  -- `m[k] = v`
  unfoldable pub insert : Str → V → Map V → Map V
  insert k v [] = (k, v) ∷ []
  insert k v ((j, w) ∷ m) = if same j k then (k, v) ∷ m else (j, w) ∷ insert k v m

  -- `delete(m, k)`
  unfoldable pub delete : Str → Map V → Map V
  delete k [] = []
  delete k ((j, w) ∷ m) = let rest = delete k m in if same j k then rest else (j, w) ∷ rest

  -- `_, ok := m[k]`
  abbrev pub has : Str → Map V → Bool
  has k m = is_some (lookup k m)

  -- `v := m[k]`, the zero value for a missing key
  abbrev pub value_or : V → Option V → V
  value_or d none = d
  value_or d (some v) = v

  abbrev pub lookup_or : V → Str → Map V → V
  lookup_or d k m = value_or d (lookup k m)

  abbrev pub keys : Map V → List Str
  keys = map (λ kv. kv.0)

  pub lookup-insert :
      (k j : Str) (v : V) (m : Map V)
      → lookup j (insert k v m) ≡ (if same k j then some v else lookup j m)
  unfolding lookup insert
  lookup-insert k j v [] = refl
  lookup-insert k j v ((i, w) ∷ m) =
      ground (arith, same_iff k j, same_iff i k, same_iff i j, lookup-insert k j v m)

  pub lookup-delete :
      (k j : Str) (m : Map V) → lookup j (delete k m) ≡ (if same k j then none else lookup j m)
  unfolding lookup delete
  lookup-delete k j [] = ground arith
  lookup-delete k j ((i, v) ∷ m) =
      ground (arith, lookup-delete k j m, same_iff i k, same_iff i j, same_iff k j)

  -- A key stands once.
  abbrev pub Unique : Map V → Type ℓ
  Unique [] = Unit
  Unique ((k, v) ∷ m) = (lookup k m ≡ none) × Unique m

pub same-sym : (s t : Str) → same t s ≡ false → same s t ≡ false
same-sym s t h = ground (arith, same_iff s t, same_iff t s)

pub lookup-empty {ℓ} : {V : Type ℓ} (k : Str) → lookup {V = V} k [] ≡ none
unfolding lookup
lookup-empty k = refl

pub ruleset map_laws = (lookup-empty, lookup-insert, lookup-delete)

-- `map[string]struct{}`: a set of strings.
abbrev pub StrSet : Type 0
StrSet = Map (Unit {0})

pub insert-Unique : {V : Type 0} (k : Str) (v : V) (m : Map V) → Unique m → Unique (insert k v m)
unfolding insert
insert-Unique k v [] u = (lookup-empty k, tt)
insert-Unique k v ((j, w) ∷ m) (n, u) = elim (Bool-cases (same j k)) [
  | inl e ↦ rw e (subst (λ i. lookup i m ≡ none) ((same_iff j k).0 e) n, u)
  | inr e ↦ rw e (lookup-insert k j v m ∙ rw (same-sym k j e) n, insert-Unique k v m u)
]

pub delete-Unique : {V : Type 0} (k : Str) (m : Map V) → Unique m → Unique (delete k m)
unfolding delete
delete-Unique k [] u = tt
delete-Unique k ((j, w) ∷ m) (n, u) = elim (Bool-cases (same j k)) [
  | inl e ↦ rw e (delete-Unique k m u)
  | inr e ↦ rw e (ground (arith, n, lookup-delete k j m), delete-Unique k m u)
]
