-- ===== src/Cache/Tests.antt =====
-- The cache's theorems at a concrete cache.
use tdcs.Prelude.{ℕ, List, [], ◌∷◌, String, text_eq, arith}
use tdcs.Cache.{CacheManager}
use tdcs.Cache.Invariant.{Call, sets, gets, sizes, run, IsValid, run-IsValid}

abbrev small : CacheManager String ℕ
small = record { maxsize = 2; ttl = 10; items = [] }

abbrev calls : List (Call String ℕ)
calls = sets "a" 1 0 0 ∷ gets "a" 3 ∷ sets "b" 2 4 4 ∷ sets "c" 3 5 5 ∷ sizes 20 ∷ []

run-IsValid_example : IsValid (run calls small)
run-IsValid_example = run-IsValid calls small (record { bounded = omega arith; distinct = tt })
