-- ===== src/Watcher/Events.antt =====
-- `EventHandler` of src/watcher/event_handler.py: a debounced check of a file until it is stable.
-- The one dict `_pending` of the source keeps three things under keys of three forms; here they
-- are three dicts by the file's path. A cancelled timer never fires, so a file has one timer.
pub mod Stability
mod Tests
use tdcs.Prelude.{
  ℕ, suc, ◌+◌, String, Option, none, some, List, Bool, true, false, ◌&&◌, leb, ◌==◌, number_eq,
  text_eq, if◌then◌else◌,
}
use tdcs.Prelude.Dict.{Dict, get, put, pop, or_else, contains}
use tdcs.FileRef.{StatResult}

-- the fields of the TaskConfig that are read
pub record WatchConfig : Type 0 where
  pub file_extensions : List String
  pub debounce_seconds : ℕ
  pub stability_check_interval : ℕ
  pub stability_check_count : ℕ

-- `timers` holds the delay after which a file's check runs
pub record Pending : Type 0 where
  pub timers : Dict String ℕ
  pub prevs : Dict String StatResult
  pub counts : Dict String ℕ

-- `os.path.splitext(path)[1].lower()`
abbrev pub Extension : Type 0
Extension = String → String

unfoldable pub schedule : Extension → WatchConfig → String → Pending → Pending
schedule extension cfg path p =
    if contains (extension path) cfg.file_extensions
    then record p { timers = put path cfg.debounce_seconds p.timers }
    else p

-- `on_created`, `on_modified` and, with the destination, `on_moved`
unfoldable pub on_event : Extension → WatchConfig → Bool → String → Pending → Pending
unfolding schedule
on_event extension cfg is_directory path p =
    if is_directory then p else schedule extension cfg path p

abbrev pub same_stat : StatResult → StatResult → Bool
same_stat a b = a.st_mtime == b.st_mtime && a.st_size == b.st_size

abbrev same_as : Option StatResult → StatResult → Bool
same_as none cur = false
same_as (some prev) cur = same_stat prev cur

abbrev pub forget : String → Pending → Pending
forget path p = record {
  timers = pop path p.timers;
  prevs = pop path p.prevs;
  counts = pop path p.counts;
}

abbrev pub next_count : String → StatResult → Pending → ℕ
next_count path cur p =
    if same_as (get path p.prevs) cur then or_else (get path p.counts) 0 + 1 else 1

-- `_check_stability`: what `os.stat` gives, or `none` for an OSError; the result is the stat with
-- which the file is reported as ready, if it is
unfoldable pub check_stability :
    WatchConfig → String → Option StatResult → Pending → Option StatResult × Pending
check_stability cfg path none p = (none, forget path p)
check_stability cfg path (some cur) p =
    let count = next_count path cur p in
    if leb cfg.stability_check_count count then (some cur, forget path p) else (
      none,
      record {
        timers = put path cfg.stability_check_interval p.timers;
        prevs = put path cur p.prevs;
        counts = put path count p.counts;
      },
    )
