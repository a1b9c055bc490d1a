-- ===== src/Watcher/Events/Tests.antt =====
-- The stability check at a concrete file.
use tdcs.Prelude.{◌≡◌, refl, none, some, text_eq, [], ◌∷◌, String}
use tdcs.Prelude.Dict.{get}
use tdcs.FileRef.{StatResult}
use tdcs.Watcher.Events.{WatchConfig, Pending, check_stability}
use tdcs.Watcher.Events.Stability.{After, check_stability-After}

abbrev config : WatchConfig
config = record {
  file_extensions = ".csv" ∷ [];
  debounce_seconds = 3;
  stability_check_interval = 1;
  stability_check_count = 2;
}

abbrev seen : StatResult
seen = record { st_mtime = 5; st_size = 9 }

abbrev nothing_pending : Pending
nothing_pending = record { timers = []; prevs = []; counts = [] }

check_stability-After_example :
    After config "f.csv" seen [] (check_stability config "f.csv" (some seen) nothing_pending)
unfolding get
check_stability-After_example =
    check_stability-After config "f.csv" seen [] nothing_pending (none_known, none_known)
  where
    none_known : {A : Type 0} → get {K = String} {V = A} "f.csv" [] ≡ none
    none_known = refl
