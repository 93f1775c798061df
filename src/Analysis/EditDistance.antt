-- ===== src/Analysis/EditDistance.antt =====
-- analysis/fuzzy.go: the Levenshtein distance, row by row of its table.
use go_search.Base.{ℕ, ◌+◌, List, [], ◌∷◌, ◌==◌, if◌then◌else◌, Str, min}

-- The cells of row `i` behind its first one: `prev` is the row above from the column before, `left`
-- the cell before.
unfoldable pub next_cells : ℕ → Str → List ℕ → ℕ → List ℕ
next_cells x [] prev left = []
next_cells x (y ∷ b) (diagonal ∷ above ∷ prev) left =
    let cell = if x == y then diagonal else 1 + min (min above left) diagonal in
    cell ∷ next_cells x b (above ∷ prev) cell
next_cells x (y ∷ b) _ left = []

abbrev pub next_row : ℕ → ℕ → Str → List ℕ → List ℕ
next_row i x b prev = i ∷ next_cells x b prev i

-- The rows from row `i` on, given the one above: the last row.
unfoldable pub last_row : ℕ → Str → Str → List ℕ → List ℕ
unfolding next_cells
last_row i [] b prev = prev
last_row i (x ∷ a) b prev = last_row (i + 1) a b (next_row i x b prev)

-- Row 0 from column `j` on.
abbrev pub first_row : ℕ → Str → List ℕ
first_row j [] = j ∷ []
first_row j (y ∷ b) = j ∷ first_row (j + 1) b

abbrev pub last_cell : List ℕ → ℕ
last_cell [] = 0
last_cell (n ∷ []) = n
last_cell (n ∷ m ∷ row) = last_cell (m ∷ row)

unfoldable pub edit_distance : Str → Str → ℕ
unfolding last_row
edit_distance a b = last_cell (last_row 1 a b (first_row 0 b))
