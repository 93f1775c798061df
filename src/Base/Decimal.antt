-- ===== src/Base/Decimal.antt =====
-- The verb `%d` of package fmt for a natural number.
use Prim.Native.Nat.{ℕ, zero, suc, ◌+◌, ◌-◌, ◌*◌, ◌/◌, ◌%◌, ◌≤◌}
use mathlib.Core.Path.{◌≡◌, sym, ap, ◌∙◌}
use mathlib.Core.Logic.{inl, inr}
use mathlib.Core.List.{[], ◌∷◌}
use native.Mathlib.Omega.{arith}
use go_search.Base.Tests.{◌==◌, if◌then◌else◌, Bool-cases}
use go_search.Base.Text.{Str}

-- The digits of `n` in front of `out`; a number has no more digits than its value.
emit_digits : ℕ → ℕ → Str → Str
emit_digits zero n out = out
emit_digits (suc fuel) n out =
    let rest = emit_digits fuel (n / 10) ((48 + n % 10) ∷ out) in if n == 0 then out else rest

unfoldable pub decimal : ℕ → Str
unfolding emit_digits
decimal n = if n == 0 then 48 ∷ [] else emit_digits n n []

abbrev read_digits : ℕ → Str → ℕ
read_digits n [] = n
read_digits n (c ∷ s) = read_digits (n * 10 + (c - 48)) s

read-emit_digits :
    (fuel n : ℕ) (out : Str) → n ≤ fuel → read_digits 0 (emit_digits fuel n out) ≡ read_digits n out
unfolding emit_digits
read-emit_digits zero n out h = ap (λ k. read_digits k out) (omega arith)
read-emit_digits (suc fuel) n out h = elim (Bool-cases (n == 0)) [
  | inl e ↦ rw e (ap (λ k. read_digits k out) (ground arith))
  | inr e ↦ rw e (
      read-emit_digits fuel (n / 10) ((48 + n % 10) ∷ out) (omega arith)
      ∙ ap (λ k. read_digits k out) (omega arith))
]

read-decimal : (n : ℕ) → read_digits 0 (decimal n) ≡ n
unfolding decimal
read-decimal n = elim (Bool-cases (n == 0)) [
  | inl e ↦ rw e (ground arith)
  | inr e ↦ rw e (read-emit_digits n n [] (omega arith))
]

-- Different numbers are printed differently.
pub decimal_injective : (m n : ℕ) → decimal m ≡ decimal n → m ≡ n
decimal_injective m n e = sym (read-decimal m) ∙ ap (read_digits 0) e ∙ read-decimal n
