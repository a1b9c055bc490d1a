-- ===== src/Cache.antt =====
-- `CacheManager` of src/infrastructure/cache.py: a bounded cache whose entries expire and which
-- drops the entry that was used least recently. The entries stand in the order of the
-- OrderedDict, the oldest first. A method that reads the clock twice takes both readings.
pub mod Invariant
pub mod Lookup
mod Tests
use tdcs.Prelude.{
  ℕ, suc, ◌+◌, Option, none, some, List, [], ◌∷◌, ◌++◌, length, keep, Bool, true, false, not, leb,
  Eq, ◌==◌, if◌then◌else◌,
}
use tdcs.Prelude.Dict.{Dict, get, pop}

-- an entry is its key, its deadline and its value
pub record CacheManager (K : Type 0) (V : Type 0) : Type 0 where
  pub maxsize : ℕ
  pub ttl : ℕ
  pub items : Dict K (ℕ × V)

-- `CacheManager(maxsize, ttl)`, which raises ValueError unless both are positive
unfoldable pub new_cache : {K : Type 0} {V : Type 0} → ℕ → ℕ → Option (CacheManager K V)
new_cache maxsize ttl =
    if leb 1 maxsize
    then (if leb 1 ttl then some (record { maxsize = maxsize; ttl = ttl; items = [] }) else none)
    else none

module _ {K : Type 0} {V : Type 0} where
  -- the test `deadline <= now`, the other way round
  abbrev pub is_live : ℕ → K × (ℕ × V) → Bool
  is_live now (k, (deadline, v)) = not (leb deadline now)

  unfoldable pub evict_expired : ℕ → Dict K (ℕ × V) → Dict K (ℕ × V)
  evict_expired now items = keep (is_live now) items

  -- `while len(items) > maxsize: items.popitem(last=False)`
  unfoldable pub shrink : ℕ → Dict K (ℕ × V) → Dict K (ℕ × V)
  shrink n [] = []
  shrink n (e ∷ items) = if leb (length (e ∷ items)) n then e ∷ items else shrink n items

module _ {K : Type 0} {V : Type 0} ⦃e : Eq K⦄ where
  unfoldable pub set_entry : K → V → ℕ → ℕ → CacheManager K V → CacheManager K V
  unfolding evict_expired shrink
  set_entry k v now later c = record c {
    items = shrink c.maxsize (evict_expired later (pop k c.items ++ (k, (now + c.ttl, v)) ∷ []));
  }

  abbrev found : K → ℕ → CacheManager K V → Option (ℕ × V) → Option V × CacheManager K V
  found k now c none = (none, c)
  found k now c (some (deadline, v)) =
      if leb deadline now
      then (none, record c { items = pop k c.items })
      else (some v, record c { items = pop k c.items ++ (k, (deadline, v)) ∷ [] })

  unfoldable pub get_entry : K → ℕ → CacheManager K V → Option V × CacheManager K V
  get_entry k now c = found k now c (get k c.items)

  unfoldable pub delete : K → CacheManager K V → CacheManager K V
  delete k c = record c { items = pop k c.items }

-- `len(cache)`
unfoldable pub size : {K : Type 0} {V : Type 0} → ℕ → CacheManager K V → ℕ × CacheManager K V
unfolding evict_expired
size now c = let items = evict_expired now c.items in (length items, record c { items = items })
