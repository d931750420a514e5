-- ===== src/Report/Projection/Exact.antt =====
-- src/report/cost_report.rs, `calculate_projections`: the product is exact or an error.
use soroban_cost_estimator.Prelude.{ℕ, ◌<◌, ◌^◌, ◌≡◌, Option, List, [], ◌∷◌, All, arith}
use soroban_cost_estimator.Prelude.Int.{ℤ, scale}
use soroban_cost_estimator.Prelude.Machine.{InI64}
use soroban_cost_estimator.Error.{Externals, ok, err, AppResult, ◌>>=◌}
use soroban_cost_estimator.Report.Model.{CostProjection}
use soroban_cost_estimator.Report.Projection.{UsdFloats, projection, calculate_projections}

-- Each projection is for its count and holds the fee times the count.
abbrev pub Projects : {F64 : Type 0} → ℤ → List ℕ → List (CostProjection F64) → Type 0
Projects total [] [] = Unit
Projects total (c ∷ cs) (p ∷ ps) =
    (p.invocations ≡ c) × (p.total_stroops ≡ scale c total) × Projects total cs ps
Projects total [] (p ∷ ps) = ⊥
Projects total (c ∷ cs) [] = ⊥

abbrev pub Fits : ℤ → ℕ → Type 0
Fits total c = (c < 2 ^ 63) × InI64 (scale c total)

-- Projections when all products fit, an error when one does not.
abbrev pub Outcome :
    {x : Externals} {F64 : Type 0} → ℤ → List ℕ → AppResult x (List (CostProjection F64)) → Type 0
Outcome total counts (ok ps) = All (Fits total) counts × Projects total counts ps
Outcome total counts (err e) = ¬ All (Fits total) counts

module _ (x : Externals) (floats : UsdFloats) (total : ℤ) (precision : ℕ)
    (price : Option floats.F64) where
  abbrev One : ℕ → AppResult x (CostProjection floats.F64) → Type 0
  One c (ok p) = Fits total c × (p.invocations ≡ c) × (p.total_stroops ≡ scale c total)
  One c (err e) = ¬ Fits total c

  projection-One : (c : ℕ) → One c (projection {x = x} floats total precision c price)
  unfolding projection
  projection-One c = ground arith

  chain :
      (c : ℕ) (cs : List ℕ) (first : AppResult x (CostProjection floats.F64))
      (rest : AppResult x (List (CostProjection floats.F64)))
      → One c first
      → Outcome total cs rest
      → Outcome total (c ∷ cs) (first >>= (λ p. rest >>= (λ ps. ok (p ∷ ps))))
  chain c cs (ok p) (ok ps) h hs = ((h.0, hs.0), (h.1, h.2, hs.1))
  chain c cs (ok p) (err e) h hs = λ a. hs a.1
  chain c cs (err e) rest h hs = λ a. h a.0

  -- For every fee, list of counts, precision and price: when every count is below 2^63 and its
  -- product with the fee is an i64, there is one projection for each count, in their order, holding
  -- the count and the exact product; otherwise the result is an error.
  pub calculate_projections-Outcome :
      (counts : List ℕ)
      → Outcome total counts (calculate_projections {x = x} floats total counts precision price)
  unfolding calculate_projections
  calculate_projections-Outcome [] = (tt, tt)
  calculate_projections-Outcome (c ∷ cs) =
      chain c cs (projection floats total precision c price)
        (calculate_projections floats total cs precision price) (projection-One c)
        (calculate_projections-Outcome cs)
