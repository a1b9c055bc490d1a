-- ===== src/Web/Pages/Tests.antt =====
-- A witness of the theorem on pages: 5 rows in pages of 2.
use tdcs.Prelude.{ℕ, ◌≤◌, ◌≡◌, ◌-◌, arith, List, [], ◌∷◌, length, some}
use tdcs.Prelude.Int.{pos}
use tdcs.Web.Pages.Newest.{NewestFirst}
use tdcs.Web.Pages.{
  get_pagination, max_page_size, page_rows, first_pages, total_pages, get_pagination-covers,
}

abbrev rows : List ℕ
rows = 1 ∷ 2 ∷ 3 ∷ 4 ∷ 5 ∷ []

abbrev created_at : ℕ → ℕ
created_at id = 100 - id

newest : NewestFirst created_at rows
newest = (
  (omega arith, (omega arith, (omega arith, (omega arith, tt)))),
  (
    (omega arith, (omega arith, (omega arith, tt))),
    ((omega arith, (omega arith, tt)), ((omega arith, tt), (tt, tt))),
  ),
)

-- no two of them were created at one time
abbrev order : ℕ → List ℕ
order page = rows

get_pagination-covers_example :
    let (p, size) = get_pagination (some (pos 3)) (some (pos 2)) in
    (1 ≤ p)
    × ((1 ≤ size) × (size ≤ max_page_size))
    × (length (page_rows p size (order p)) ≤ size)
    × (first_pages (total_pages size (length rows)) size order ≡ rows)
get_pagination-covers_example =
    get_pagination-covers created_at (some (pos 3)) (some (pos 2)) order rows newest
      (λ p. (newest, (λ x. ((λ i. i), (λ i. i)))))
