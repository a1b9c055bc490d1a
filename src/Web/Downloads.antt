-- ===== src/Web/Downloads.antt =====
-- The store of cleaned files that wait for a download, in src/web/api/cleaners.py: what `run_cleaner`
-- puts there, `_purge_expired_downloads`, and `download_result`.
use tdcs.Prelude.{
  ℕ, ◌+◌, ◌≤◌, ◌<◌, ◌≡◌, refl, ap, ◌∙◌, Option, none, some, List, [], ◌∷◌, keep, Bool, true, false,
  not, ◌||◌, ltb, ◌==◌, number_eq, if◌then◌else◌, All, arith, Bool-cases, inl, inr,
}
use tdcs.Prelude.Dict.{Dict, get, put, pop, get-put, get-pop, beq_refl}
use tdcs.Prelude.Text.{Text, codes_eq, same_text_iff}
use tdcs.Web.{Reply, ok, error}
mod Tests

-- the bytes of the CSV file, its name, and the time at which the token expires, in seconds
pub record Entry : Type 0 where
  pub csv_bytes : List ℕ
  pub filename : Text
  pub expire_ts : ℕ

abbrev pub Store : Type 0
Store = Dict Text Entry

abbrev pub download_ttl : ℕ
download_ttl = 1800

-- `_download_store[download_token] = …` with the time of the run
unfoldable pub store_result : Text → List ℕ → Text → ℕ → Store → Store
store_result token csv_bytes filename now s =
    put token
      (record { csv_bytes = csv_bytes; filename = filename; expire_ts = now + download_ttl }) s

unfoldable pub purge_expired : ℕ → Store → Store
purge_expired now s = keep (λ e. not (ltb (Entry.expire_ts e.1) now)) s

-- the quotes and line breaks that `replace` takes out of the name
abbrev pub safe_filename : Text → Text
safe_filename name = keep (λ c. not (c == 34 || (c == 13 || c == 10))) name

abbrev pub download_found : ℕ → Text → Option Entry → Store → Reply (List ℕ × Text) × Store
download_found now token none s = (error "TOKEN_EXPIRED" 404, pop token s)
download_found now token (some e) s =
    if ltb e.expire_ts now
    then (error "TOKEN_EXPIRED" 404, pop token s)
    else (ok 200 (e.csv_bytes, safe_filename e.filename), pop token s)

unfoldable pub download_result : ℕ → Text → Store → Reply (List ℕ × Text) × Store
download_result now token s = download_found now token (get token s) s

-- what happens to the store: a run, a download or a purge, each at a time
pub data Event : Type 0 where
  runs : Text → List ℕ → Text → Event
  fetches : Text → Event
  purges : Event

abbrev pub step : Event × ℕ → Store → Store
step (runs token csv_bytes filename, now) s = store_result token csv_bytes filename now s
step (fetches token, now) s = (download_result now token s).1
step (purges, now) s = purge_expired now s

abbrev pub steps : List (Event × ℕ) → Store → Store
steps [] s = s
steps (e ∷ es) s = steps es (step e s)

-- The event is at most at this time, and neither makes this token nor uses it.
abbrev pub Passes : Text → ℕ → Event × ℕ → Type 0
Passes token last (runs t csv_bytes filename, now) = (t == token) ≡ false
Passes token last (fetches t, now) = (t == token) ≡ false
Passes token last (purges, now) = now ≤ last

-- The event does not make this token, as no two runs make the same one.
abbrev pub NoRun : Text → Event × ℕ → Type 0
NoRun token (runs t csv_bytes filename, now) = (t == token) ≡ false
NoRun token (fetches t, now) = Unit
NoRun token (purges, now) = Unit

get-download_result :
    (now : ℕ) (t token : Text) (s : Store)
    → get token (download_result now t s).1 ≡ (if t == token then none else get token s)
unfolding download_result
get-download_result now t token s = by_entry (get t s)
  where
    by_entry :
        (o : Option Entry)
        → get token (download_found now t o s).1 ≡ (if t == token then none else get token s)
    by_entry none = get-pop t token s
    by_entry (some e) = elim (Bool-cases (ltb e.expire_ts now)) [
      | inl late ↦ rw late (get-pop t token s)
      | inr early ↦ rw early (get-pop t token s)
    ]

get-purge_expired :
    (now : ℕ) (token : Text) (e : Entry) (s : Store)
    → now ≤ e.expire_ts
    → get token s ≡ some e
    → get token (purge_expired now s) ≡ some e
unfolding purge_expired get
get-purge_expired now token e [] h at = at
get-purge_expired now token e ((t, f) ∷ s) h at = elim (Bool-cases (t == token)) [
  | inl same ↦ first same (rw same at at)
  | inr other ↦
      others (ltb f.expire_ts now) other (get-purge_expired now token e s h (rw other at at))
]
  where
    first :
        (t == token) ≡ true
        → some f ≡ some e
        → get token (keep (λ e. not (ltb (Entry.expire_ts e.1) now)) ((t, f) ∷ s)) ≡ some e
    first same is =
        let f_is_e : f ≡ e = cc in
        let kept : ltb f.expire_ts now ≡ false = rw f_is_e (ground (arith, h)) in rw (kept, same) is

    others :
        (b : Bool)
        → (t == token) ≡ false
        → get token (keep (λ e. not (ltb (Entry.expire_ts e.1) now)) s) ≡ some e
        → get token (
            if not b
            then (t, f) ∷ keep (λ e. not (ltb (Entry.expire_ts e.1) now)) s
            else keep (λ e. not (ltb (Entry.expire_ts e.1) now)) s)
          ≡ some e
    others true o r = r
    others false o r = rw o r

get-purge_expired-none :
    (now : ℕ) (token : Text) (s : Store)
    → get token s ≡ none
    → get token (purge_expired now s) ≡ none
unfolding purge_expired get
get-purge_expired-none now token [] at = refl
get-purge_expired-none now token ((t, f) ∷ s) at = elim (Bool-cases (t == token)) [
  | inl same ↦ absurd (first (rw same at at))
  | inr other ↦
      others (ltb f.expire_ts now) other (get-purge_expired-none now token s (rw other at at))
]
  where
    first : some f ≡ none → ⊥
    first e = cc

    others :
        (b : Bool)
        → (t == token) ≡ false
        → get token (keep (λ e. not (ltb (Entry.expire_ts e.1) now)) s) ≡ none
        → get token (
            if not b
            then (t, f) ∷ keep (λ e. not (ltb (Entry.expire_ts e.1) now)) s
            else keep (λ e. not (ltb (Entry.expire_ts e.1) now)) s)
          ≡ none
    others true o r = r
    others false o r = rw o r

get-store_result :
    (t token : Text) (bytes : List ℕ) (name : Text) (now : ℕ) (s : Store)
    → get token (store_result t bytes name now s) ≡ (
        if t == token
        then some (record { csv_bytes = bytes; filename = name; expire_ts = now + download_ttl })
        else get token s)
unfolding store_result
get-store_result t token bytes name now s =
    get-put t token (record { csv_bytes = bytes; filename = name; expire_ts = now + download_ttl })
      s

steps-Passes :
    (es : List (Event × ℕ)) (token : Text) (e : Entry) (s : Store)
    → All (Passes token e.expire_ts) es
    → get token s ≡ some e
    → get token (steps es s) ≡ some e
steps-Passes [] token e s pass at = at
steps-Passes ((runs t bytes name, now) ∷ es) token e s pass at =
    steps-Passes es token e (store_result t bytes name now s) pass.1
      (get-store_result t token bytes name now s ∙ rw pass.0 at)
steps-Passes ((fetches t, now) ∷ es) token e s pass at =
    steps-Passes es token e (download_result now t s).1 pass.1
      (get-download_result now t token s ∙ rw pass.0 at)
steps-Passes ((purges, now) ∷ es) token e s pass at =
    steps-Passes es token e (purge_expired now s) pass.1 (get-purge_expired now token e s pass.0 at)

nothing_left : (b : Bool) {o : Option Entry} → o ≡ none → (if b then none else o) ≡ none
nothing_left true h = refl
nothing_left false h = h

steps-NoRun :
    (es : List (Event × ℕ)) (token : Text) (s : Store)
    → All (NoRun token) es
    → get token s ≡ none
    → get token (steps es s) ≡ none
steps-NoRun [] token s fresh at = at
steps-NoRun ((runs t bytes name, now) ∷ es) token s fresh at =
    steps-NoRun es token (store_result t bytes name now s) fresh.1
      (get-store_result t token bytes name now s ∙ rw fresh.0 at)
steps-NoRun ((fetches t, now) ∷ es) token s fresh at =
    steps-NoRun es token (download_result now t s).1 fresh.1
      (get-download_result now t token s ∙ nothing_left (t == token) at)
steps-NoRun ((purges, now) ∷ es) token s fresh at =
    steps-NoRun es token (purge_expired now s) fresh.1 (get-purge_expired-none now token s at)

-- A cleaned file can be downloaded until 1800 seconds after its run, whatever other runs, other
-- downloads and purges happen up to then, and then gives the bytes of the run; and it can be
-- downloaded once: whatever follows, without another run that makes the same token, the next
-- download by the token is refused.
pub download_result-once :
    (token : Text) (csv_bytes : List ℕ) (filename : Text) (made at again : ℕ) (s : Store)
    (before behind : List (Event × ℕ))
    → at ≤ made + download_ttl
    → All (Passes token (made + download_ttl)) before
    → All (NoRun token) behind
    → let (reply, s') =
        download_result at token (steps before (store_result token csv_bytes filename made s)) in
      (reply ≡ ok 200 (csv_bytes, safe_filename filename))
      × ((download_result again token (steps behind s')).0 ≡ error "TOKEN_EXPIRED" 404)
download_result-once token csv_bytes filename made at again s before behind in_time pass fresh =
    let e : Entry = record {
      csv_bytes = csv_bytes;
      filename = filename;
      expire_ts = made + download_ttl;
    } in
    let s1 = store_result token csv_bytes filename made s in
    let there =
      steps-Passes before token e s1 pass
        (get-store_result token token csv_bytes filename made s ∙ rw (beq_refl token) refl) in
    let gone = get-download_result at token token (steps before s1) ∙ rw (beq_refl token) refl in
    (
      served at (steps before s1) e there in_time,
      refused again (steps behind (download_result at token (steps before s1)).1)
          (steps-NoRun behind token (download_result at token (steps before s1)).1 fresh gone),
    )
  where
    served :
        (now : ℕ) (s : Store) (e : Entry)
        → get token s ≡ some e
        → now ≤ e.expire_ts
        → (download_result now token s).0 ≡ ok 200 (e.csv_bytes, safe_filename e.filename)
    served now s e there early = unfold download_result in rw there (ground (arith, early))

    refused :
        (now : ℕ) (s : Store)
        → get token s ≡ none
        → (download_result now token s).0 ≡ error "TOKEN_EXPIRED" 404
    refused now s gone = unfold download_result in rw gone refl
