-- ===== src/Etl/Quality/Score.antt =====
-- The counts and the score of a report.
use tdcs.Prelude.{
  Option, Bool, true, false, eq_iff, sym, ◌∙◌, ◌↔◌, Bool-cases, inl, inr, ℕ, ◌+◌, ◌*◌, ◌≤◌, ◌<◌,
  ◌≡◌, refl, String, none, some, List, [], ◌∷◌, length, arith, number_eq, text_eq, count,
  count-le-length,
}
use tdcs.Prelude.Dict.{get}
use mathlib.Core.Bool.{false≢true}
use tdcs.Etl.{Value, null, text, num, opaque, Row}
use tdcs.Etl.Quality.{
  Rate, Nulls, is_missing, count_field, count_row, count_rows, score, none_counted, calculate, rate,
  counted,
}

-- a value that counts as missing: no such key, None, or the empty text
abbrev pub Missing : Option Value → Type 0
Missing none = Unit
Missing (some null) = Unit
Missing (some (text s)) = s ≡ ""
Missing (some (num n)) = ⊥
Missing (some (opaque s b)) = ⊥

is_missing_lem : (v : Option Value) → (is_missing v ≡ true) ↔ Missing v
is_missing_lem none = ((λ e. tt), (λ m. refl))
is_missing_lem (some null) = ((λ e. tt), (λ m. refl))
is_missing_lem (some (text s)) = eq_iff s ""
is_missing_lem (some (num n)) = (false≢true, (λ m. absurd m))
is_missing_lem (some (opaque s b)) = (false≢true, (λ m. absurd m))

pub missing? : (v : Option Value) → Dec (Missing v)
missing? v = elim (Bool-cases (is_missing v)) [
  | inl m ↦ yes ((is_missing_lem v).0 m)
  | inr m ↦ no (λ h. false≢true (sym m ∙ (is_missing_lem v).1 h))
]

abbrev pub misses : Option Value → Bool
misses v = elim (missing? v) [ yes m ↦ true | no n ↦ false ]

is_missing-misses : (v : Option Value) → is_missing v ≡ misses v
is_missing-misses v = by_decision (missing? v)
  where
    by_decision : (d : Dec (Missing v)) → is_missing v ≡ elim d [ yes m ↦ true | no n ↦ false ]
    by_decision (yes m) = (is_missing_lem v).1 m
    by_decision (no n) = elim (Bool-cases (is_missing v)) [
      | inl e ↦ absurd (n ((is_missing_lem v).0 e))
      | inr e ↦ e
    ]

-- the missing required values of a row, and of some rows
abbrev pub missing_in : Row → List String → ℕ
missing_in row fs = count (λ f. misses (get f row)) fs

abbrev pub missing_all : List Row → List String → ℕ
missing_all [] fs = 0
missing_all (row ∷ rows) fs = missing_in row fs + missing_all rows fs

null_count-count_row :
    (row : Row) (fs : List String) (n : Nulls)
    → (count_row row fs n).null_count ≡ n.null_count + missing_in row fs
unfolding count_row count_field
null_count-count_row row [] n = omega arith
null_count-count_row row (f ∷ fs) n =
    ground (arith, null_count-count_row row fs (count_field row f n), is_missing-misses (get f row))

null_count-count_rows :
    (rows : List Row) (fs : List String) (n : Nulls)
    → (count_rows rows fs n).null_count ≡ n.null_count + missing_all rows fs
unfolding count_rows
null_count-count_rows [] fs n = omega arith
null_count-count_rows (row ∷ rows) fs n =
    omega (arith, null_count-count_rows rows fs (count_row row fs n), null_count-count_row row fs n)

missing_all-le :
    (rows : List Row) (fs : List String) → missing_all rows fs ≤ length rows * length fs
missing_all-le [] fs = omega arith
missing_all-le (row ∷ rows) fs =
    omega (arith, missing_all-le rows fs, count-le-length (λ f. misses (get f row)) fs)

abbrev pub AtMostOne : Rate → Type 0
AtMostOne r = (0 < r.den) × (r.num ≤ r.den)

-- the score, as a fraction, is 100 less 60 times the error rate and 40 times the null rate
abbrev pub Weighs : Rate → Rate → Rate → Type 0
Weighs e n s =
    (s.den ≡ e.den * n.den)
    × (s.num + 60 * (e.num * n.den) + 40 * (n.num * e.den) ≡ 100 * (e.den * n.den))

-- of rates that are at most one the difference does not stop at 0
score-Weighs : (e n : Rate) → AtMostOne e → AtMostOne n → Weighs e n (score e n)
unfolding score
score-Weighs e n he hn = (refl, grind arith)

rate-AtMostOne : (a b : ℕ) → a ≤ b → AtMostOne (rate a b)
rate-AtMostOne a b h = ground arith

nulls_of_rows :
    (rows : List Row) (fs : List String)
    → (counted (some rows) fs (length rows)).null_count ≡ missing_all rows fs
nulls_of_rows [] fs = refl
nulls_of_rows (row ∷ rows) fs = ground (arith, null_count-count_rows (row ∷ rows) fs none_counted)

-- For a batch whose rows are at hand and of which at most all failed, whatever `round` does: the
-- reported rates are the rounded shares of the failed rows and of the required values that are
-- missing (no such key, None or the empty text), and the reported score is 100 less 60 times the
-- one share and 40 times the other, both before rounding, rounded itself; it is not cut off at 0.
pub calculate_of_rows :
    (round : ℕ → Rate → Rate) (rows : List Row) (errors : ℕ) (fs : List String)
    → errors ≤ length rows
    → let report = calculate round (some rows) errors fs none in
      let e = rate errors (length rows) in
      let n = rate (missing_all rows fs) (length rows * length fs) in
      (report.error_rate ≡ round 4 e)
      × (report.null_rate ≡ round 4 n)
      × (s : Rate) × (report.quality_score ≡ round 2 s)
      × Weighs e n s
unfolding calculate
calculate_of_rows round rows errors fs few =
    let e = rate errors (length rows) in
    let n = rate (missing_all rows fs) (length rows * length fs) in
    rw (nulls_of_rows rows fs) (
      refl,
      refl,
      score e n,
      refl,
      score-Weighs e n (rate-AtMostOne errors (length rows) few)
          (rate-AtMostOne (missing_all rows fs) (length rows * length fs) (missing_all-le rows fs)),
    )
