-- ===== src/Scoring.antt =====
-- scoring/bm25.go over an abstract float64.
use go_search.Base.{ℕ}
use go_search.Base.Int.{ℤ, pos}

-- The operations of float64 that the program uses; `ratio n m` is the literal n/m.
pub record FloatOps (F : Type 0) : Type 0 where
  pub plus : F → F → F
  pub minus : F → F → F
  pub times : F → F → F
  pub divide : F → F → F
  pub log : F → F
  pub of_int : ℤ → F
  pub ratio : ℕ → ℕ → F

pub record Params (F : Type 0) : Type 0 where
  pub k1 : F
  pub b : F

module _ {F : Type 0} (ops : FloatOps F) where
  abbrev pub one : F
  one = ops.ratio 1 1

  abbrev pub default_params : Params F
  default_params = record { k1 = ops.ratio 12 10; b = ops.ratio 75 100 }

  unfoldable pub idf : ℤ → ℤ → F
  idf n df =
      let half = ops.ratio 1 2 in
      ops.log (
        ops.plus one (
          ops.divide (ops.plus (ops.minus (ops.of_int n) (ops.of_int df)) half)
            (ops.plus (ops.of_int df) half)))

  unfoldable pub tf : F → ℕ → F → Params F → F
  tf freq doc_len avg_doc_len params =
      let numerator = ops.times freq (ops.plus params.k1 one) in
      let length_penalty =
        ops.plus (ops.minus one params.b)
          (ops.times params.b (ops.divide (ops.of_int (pos doc_len)) avg_doc_len)) in
      let denominator = ops.plus freq (ops.times params.k1 length_penalty) in
      ops.divide numerator denominator

  unfoldable pub bm25_score : F → ℕ → F → ℤ → ℤ → Params F → F → F
  unfolding idf tf
  bm25_score freq doc_len avg_doc_len n df params boost =
      ops.times (ops.times (idf n df) (tf freq doc_len avg_doc_len params)) boost
