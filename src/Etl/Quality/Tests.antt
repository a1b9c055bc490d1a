-- ===== src/Etl/Quality/Tests.antt =====
-- The report's theorems at concrete counts.
use tdcs.Prelude.{
  ℕ, zero, suc, ◌+◌, ◌/◌, ◌*◌, ◌≡◌, none, some, List, [], ◌∷◌, String, arith, length,
}
use tdcs.Etl.{null, num, Row}
use tdcs.Etl.Quality.{Rate, rate, calculate}
use tdcs.Etl.Quality.Score.{missing_all, Weighs, calculate_of_rows}

abbrev rows : List Row
rows = (("a", num 1) ∷ []) ∷ (("a", null) ∷ []) ∷ []

abbrev required : List String
required = "a" ∷ "b" ∷ []

-- rounding half up
abbrev power : ℕ → ℕ
power zero = 1
power (suc digits) = 10 * power digits

abbrev half_up : ℕ → Rate → Rate
half_up digits r = record {
  num = (2 * r.num * power digits + r.den) / (2 * r.den);
  den = power digits;
}

calculate_of_rows_example :
    let report = calculate half_up (some rows) 1 required none in
    let e = rate 1 (length rows) in
    let n = rate (missing_all rows required) (length rows * length required) in
    (report.error_rate ≡ half_up 4 e)
    × (report.null_rate ≡ half_up 4 n)
    × (s : Rate) × (report.quality_score ≡ half_up 2 s)
    × Weighs e n s
calculate_of_rows_example = calculate_of_rows half_up rows 1 required (omega arith)
