-- ===== src/Base/Float.antt =====
-- float64 as an abstract ordered type without NaN: what the program does with the numbers that it
-- indexes is to compare them.
use go_search.Base.Tests.{if◌then◌else◌}
use mathlib.Core.Path.{◌≡◌}
use mathlib.Core.Bool.{Bool, true, false}

pub record Float64 : Type 1 where
  pub F : Type 0
  pub lt : F → F → Bool
  -- the zero value, and `math.Inf(1)` and `math.Inf(-1)`
  pub zero : F
  pub pos_inf : F
  pub neg_inf : F

-- What IEEE comparison gives on numbers that are not NaN.
pub record IsOrdered (fl : Float64) : Type 1 where
  pub irreflexive : (a : fl.F) → fl.lt a a ≡ false
  -- `≤` is the negation of `>`
  pub le_trans : (a b c : fl.F) → fl.lt b a ≡ false → fl.lt c b ≡ false → fl.lt c a ≡ false
  pub le_of_lt : (a b : fl.F) → fl.lt a b ≡ true → fl.lt b a ≡ false
  pub below_pos_inf : (a : fl.F) → fl.lt fl.pos_inf a ≡ false
  pub above_neg_inf : (a : fl.F) → fl.lt a fl.neg_inf ≡ false

-- `math.Min` and `math.Max`
abbrev pub min_of : (fl : Float64) → fl.F → fl.F → fl.F
min_of fl a b = if fl.lt b a then b else a

abbrev pub max_of : (fl : Float64) → fl.F → fl.F → fl.F
max_of fl a b = if fl.lt a b then b else a
