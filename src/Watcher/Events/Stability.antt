-- ===== src/Watcher/Events/Stability.antt =====
-- When a file is reported.
use tdcs.Prelude.{
  ℕ, ◌+◌, ◌≤◌, ◌<◌, ◌≡◌, refl, String, Option, none, some, List, [], ◌∷◌, arith, leb, text_eq,
  number_eq, if◌then◌else◌, Bool-cases, inl, inr,
}
use tdcs.Prelude.Dict.{get, get-put, get-pop, beq_refl}
use tdcs.FileRef.{StatResult}
use tdcs.Watcher.Events.{WatchConfig, Pending, same_stat, next_count, check_stability}

-- how many of the latest stats, from the last one back, agree with it
pub agreeing : List StatResult → ℕ
agreeing [] = 0
agreeing (s ∷ []) = 1
agreeing (s ∷ t ∷ past) = let rest = agreeing (t ∷ past) in if same_stat t s then rest + 1 else 1

-- the file's records stand for the stats of the checks so far, the latest first
abbrev pub Knows : String → List StatResult → Pending → Type 0
Knows path [] p = (get path p.prevs ≡ none) × (get path p.counts ≡ none)
Knows path (s ∷ past) p =
    (get path p.prevs ≡ some s) × (get path p.counts ≡ some (agreeing (s ∷ past)))

next_count-agreeing :
    (path : String) (cur : StatResult) (past : List StatResult) (p : Pending)
    → Knows path past p
    → next_count path cur p ≡ agreeing (cur ∷ past)
unfolding agreeing
next_count-agreeing path cur [] p k = rw k.0
next_count-agreeing path cur (s ∷ past) p k = rw k.0 (rw k.1)

-- what a check leaves, given what it knew
abbrev pub After :
    WatchConfig → String → StatResult → List StatResult → Option StatResult × Pending → Type 0
After cfg path cur past (some ready, p) =
    (ready ≡ cur) × (cfg.stability_check_count ≤ agreeing (cur ∷ past)) × Knows path [] p
After cfg path cur past (none, p) =
    (agreeing (cur ∷ past) < cfg.stability_check_count) × Knows path (cur ∷ past) p

-- A check reports a file exactly when as many of its latest checks as the task asks for, the one
-- at hand included, saw the same mtime and size, and then forgets the file; otherwise it knows one
-- stat more.
pub check_stability-After :
    (cfg : WatchConfig) (path : String) (cur : StatResult) (past : List StatResult) (p : Pending)
    → Knows path past p
    → After cfg path cur past (check_stability cfg path (some cur) p)
unfolding check_stability
check_stability-After cfg path cur past p k =
    let n = next_count-agreeing path cur past p k in
    elim (Bool-cases (leb cfg.stability_check_count (next_count path cur p))) [
      | inl enough ↦ rw enough (
        refl,
        ground (arith, n),
        (rw get-pop (rw (beq_refl path)), rw get-pop (rw (beq_refl path))),
      )
      | inr few ↦ rw few (
        ground (arith, n),
        (rw get-put (rw (beq_refl path)), rw get-put (rw (beq_refl path) (rw n))),
      )
    ]
