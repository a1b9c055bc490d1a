-- ===== src/Web/Pages.antt =====
-- `get_pagination` and `paginated` of src/web/response.py, with the LIMIT and OFFSET of `list_files`
-- in src/web/api/files.py.
use tdcs.Prelude.{
  ℕ, zero, suc, ◌+◌, ◌-◌, ◌*◌, ◌/◌, ◌%◌, ◌≤◌, ◌<◌, max, ◌≡◌, refl, ap, ◌∙◌, sym, List, [], ◌∷◌,
  ◌++◌, length, length-take, take, drop, Option, none, some, Bool, ltb, if◌then◌else◌, arith,
}
use tdcs.Prelude.Int.{ℤ, pos, negsuc}
use Prim.Native.Nat.{min}
use native.Mathlib.Omega.{div_fact, mod_fact}
pub mod Newest
mod Tests
use tdcs.Web.Pages.Newest.{NewestFirst, Gives, one_order}

abbrev pub default_page_size : ℕ
default_page_size = 50

abbrev pub max_page_size : ℕ
max_page_size = 200

-- An argument of the request: `int` of it, where it is given and is the text of an integer.
abbrev pub page_arg : Option ℤ → ℕ
page_arg none = 1
page_arg (some (pos n)) = max 1 n
page_arg (some (negsuc n)) = 1

abbrev pub page_size_arg : Option ℤ → ℕ
page_size_arg none = default_page_size
page_size_arg (some (pos n)) = max 1 (min n max_page_size)
page_size_arg (some (negsuc n)) = 1

unfoldable pub get_pagination : Option ℤ → Option ℤ → ℕ × ℕ
get_pagination page page_size = (page_arg page, page_size_arg page_size)

-- `total_pages` of `paginated`
unfoldable pub total_pages : ℕ → ℕ → ℕ
total_pages page_size total = max 1 ((total + page_size - 1) / page_size)

-- The rows of the query behind its `offset`, where `rows` has them in the order that the server
-- gives them for this query: ORDER BY created_at leaves rows of one time in any order.
unfoldable pub page_rows {ℓ} : {A : Type ℓ} → ℕ → ℕ → List A → List A
page_rows page page_size rows = take page_size (drop ((page - 1) * page_size) rows)

-- the rows of the first pages, one page after the other, each from the order of its own query
abbrev pub first_pages {ℓ} : {A : Type ℓ} → ℕ → ℕ → (ℕ → List A) → List A
first_pages zero page_size order = []
first_pages (suc n) page_size order =
    first_pages n page_size order ++ page_rows (suc n) page_size (order (suc n))

module _ {ℓ} {A : Type ℓ} where
  take-nil : (k : ℕ) → take {A = A} k [] ≡ []
  take-nil zero = refl
  take-nil (suc k) = refl

  take-add : (m n : ℕ) (xs : List A) → take (m + n) xs ≡ take m xs ++ take n (drop m xs)
  take-add zero n xs = ap (λ k. take k xs) (omega arith)
  take-add (suc m) n [] = take-nil (suc m + n) ∙ sym (take-nil n)
  take-add (suc m) n (x ∷ xs) =
      let e : suc m + n ≡ suc (m + n) = omega arith in
      ap (λ k. take k (x ∷ xs)) e ∙ ap (◌∷◌ x) (take-add m n xs)

  take-all : (n : ℕ) (xs : List A) → length xs ≤ n → take n xs ≡ xs
  take-all zero [] h = refl
  take-all zero (x ∷ xs) h = absurd (omega (arith, h))
  take-all (suc n) [] h = refl
  take-all (suc n) (x ∷ xs) h = ap (◌∷◌ x) (take-all n xs (omega (arith, h)))

  first_pages-take :
      (n size : ℕ) (order : ℕ → List A) (rows : List A)
      → ((p : ℕ) → order p ≡ rows)
      → first_pages n size order ≡ take (n * size) rows
  unfolding page_rows
  first_pages-take zero size order rows alike =
      let e : 0 ≡ 0 * size = omega arith in ap (λ m. take m rows) e
  first_pages-take (suc n) size order rows alike =
      let e : suc n - 1 ≡ n = omega arith in
      let f : n * size + size ≡ suc n * size = omega arith in
      ap (λ xs. first_pages n size order ++ take size (drop ((suc n - 1) * size) xs))
        (alike (suc n))
      ∙ ap (λ m. first_pages n size order ++ take size (drop (m * size) rows)) e
      ∙ ap (λ xs. xs ++ take size (drop (n * size) rows)) (first_pages-take n size order rows alike)
      ∙ sym (take-add (n * size) size rows)
      ∙ ap (λ m. take m rows) f

enough : (q k n r : ℕ) → suc k * q + r ≡ n + k → r < suc k → n ≤ max 1 q * suc k
enough zero k n r e h = omega (arith, e, h)
enough (suc q) k n r e h =
    let larger : max 1 (suc q) ≡ suc q = omega arith in rw larger (omega (arith, e, h))

total_pages-enough : (k n : ℕ) → n ≤ total_pages (suc k) n * suc k
unfolding total_pages
total_pages-enough k n =
    let e : n + suc k - 1 ≡ n + k = omega arith in
    rw e (enough ((n + k) / suc k) k n ((n + k) % suc k) (div_fact (n + k) k) (mod_fact (n + k) k))

-- Whatever the arguments of the request, the page size is 1 to 200, the first page is page 1, and a
-- page has at most as many rows as its size; and where the query of every page runs over the same
-- rows, newest first, and no two of them were created at one time, the pages from the first to
-- `total_pages` give these rows, each once and newest first.
pub get_pagination-covers :
    {A : Type 0} (created_at : A → ℕ) (page page_size : Option ℤ) (order : ℕ → List A)
    (rows : List A)
    → NewestFirst created_at rows
    → ((p : ℕ) → Gives created_at rows (order p))
    → let (p, size) = get_pagination page page_size in
      (1 ≤ p)
      × ((1 ≤ size) × (size ≤ max_page_size))
      × (length (page_rows p size (order p)) ≤ size)
      × (first_pages (total_pages size (length rows)) size order ≡ rows)
unfolding get_pagination
get_pagination-covers created_at page page_size order rows newest gives = (
  at_least_one page,
  in_bounds page_size,
  fits (page_arg page) (page_size_arg page_size),
  covered (page_size_arg page_size) (in_bounds page_size).0,
)
  where
    alike : (p : ℕ) → order p ≡ rows
    alike p = one_order created_at (order p) rows (gives p).0 newest (gives p).1

    at_least_one : (a : Option ℤ) → 1 ≤ page_arg a
    at_least_one none = omega arith
    at_least_one (some (pos n)) = omega arith
    at_least_one (some (negsuc n)) = omega arith

    in_bounds : (a : Option ℤ) → (1 ≤ page_size_arg a) × (page_size_arg a ≤ max_page_size)
    in_bounds none = (omega arith, omega arith)
    in_bounds (some (pos n)) = (omega arith, omega arith)
    in_bounds (some (negsuc n)) = (omega arith, omega arith)

    fits : (p size : ℕ) → length (page_rows p size (order p)) ≤ size
    fits p size =
        unfold page_rows in omega (arith, length-take size (drop ((p - 1) * size) (order p)))

    covered : (size : ℕ) → 1 ≤ size → first_pages (total_pages size (length rows)) size order ≡ rows
    covered zero h = absurd (omega (arith, h))
    covered (suc k) h =
        first_pages-take (total_pages (suc k) (length rows)) (suc k) order rows alike
        ∙ take-all (total_pages (suc k) (length rows) * suc k) rows
            (total_pages-enough k (length rows))
