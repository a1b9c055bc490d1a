-- ===== src/Web/Downloads/Tests.antt =====
-- A witness of the theorem on downloads.
use tdcs.Prelude.{ℕ, ◌≡◌, refl, List, [], ◌∷◌, arith}
use tdcs.Prelude.Text.{codes, same_text}
use tdcs.Web.{ok, error}
use tdcs.Web.Downloads.{
  Event, runs, fetches, purges, steps, store_result, download_result, safe_filename,
  download_result-once,
}

abbrev first : List (Event × ℕ)
first =
    (purges, 1500)
    ∷ (runs (codes "b") (9 ∷ []) (codes "x.csv"), 1600)
    ∷ (fetches (codes "b"), 1700)
    ∷ []

abbrev later : List (Event × ℕ)
later = (runs (codes "c") (9 ∷ []) (codes "y.csv"), 2600) ∷ []

download_result-once_example :
    let (reply, s') =
      download_result 1800
        (codes "a")
        (steps first (store_result (codes "a") (1 ∷ 2 ∷ []) (codes "z.csv") 1000 [])) in
    (reply ≡ ok 200 (1 ∷ 2 ∷ [], safe_filename (codes "z.csv")))
    × ((download_result 2700 (codes "a") (steps later s')).0 ≡ error "TOKEN_EXPIRED" 404)
unfolding same_text
download_result-once_example =
    download_result-once (codes "a") (1 ∷ 2 ∷ []) (codes "z.csv") 1000 1800 2700 [] first later
      (omega arith) (omega arith, (refl, (refl, tt))) (refl, tt)
