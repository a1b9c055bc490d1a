-- ===== src/Cache/Invariant.antt =====
-- The cache stays within its bound and holds each key once, whatever is done to it.
use tdcs.Prelude.{
  ℕ, ◌+◌, ◌≤◌, ◌≡◌, refl, some, List, [], ◌∷◌, ◌++◌, length, length-append, Bool, false, ◌||◌, leb,
  arith, Eq, ◌==◌, if◌then◌else◌, Bool-cases, Option-cases, inl, inr,
}
use tdcs.Prelude.Dict.{Dict, get, pop, is_some, get-pop, beq_refl}
use tdcs.Cache.{CacheManager, evict_expired, shrink, set_entry, get_entry, delete, size}

module _ {K : Type 0} {V : Type 0} ⦃e : Eq K⦄ where
  abbrev pub has : K → Dict K (ℕ × V) → Bool
  has k items = is_some (get k items)

  abbrev pub Distinct : Dict K (ℕ × V) → Type 0
  Distinct [] = Unit
  Distinct ((k, w) ∷ items) = (has k items ≡ false) × Distinct items

  pub has-pop :
      (k j : K) (items : Dict K (ℕ × V))
      → has j (pop k items) ≡ (if k == j then false else has j items)
  has-pop k j items = ground (arith, get-pop k j items)

  pop-Distinct : (k : K) (items : Dict K (ℕ × V)) → Distinct items → Distinct (pop k items)
  unfolding pop
  pop-Distinct k [] d = tt
  pop-Distinct k ((j, w) ∷ items) d = ground (arith, has-pop k j items, pop-Distinct k items)

  length-pop-le : (k : K) (items : Dict K (ℕ × V)) → length (pop k items) ≤ length items
  unfolding pop
  length-pop-le k [] = omega arith
  length-pop-le k ((j, w) ∷ items) = ground (arith, length-pop-le k items)

  length-pop_found :
      (k : K) (items : Dict K (ℕ × V)) (w : ℕ × V)
      → get k items ≡ some w
      → length (pop k items) + 1 ≤ length items
  unfolding get pop
  length-pop_found k [] w h = cc
  length-pop_found k ((j, x) ∷ items) w h =
      ground (arith, length-pop-le k items, length-pop_found k items w)

  pub has-snoc :
      (j k : K) (w : ℕ × V) (items : Dict K (ℕ × V))
      → has j (items ++ (k, w) ∷ []) ≡ (k == j || has j items)
  unfolding get
  has-snoc j k w [] = ground arith
  has-snoc j k w ((i, x) ∷ items) = ground (arith, has-snoc j k w items)

  Distinct-snoc :
      (k : K) (w : ℕ × V) (items : Dict K (ℕ × V))
      → has k items ≡ false
      → Distinct items
      → Distinct (items ++ (k, w) ∷ [])
  unfolding get
  Distinct-snoc k w [] n d = (refl, tt)
  Distinct-snoc k w ((i, x) ∷ items) n d =
      ground (arith, has-snoc i k w items, e.beq_iff i k, e.beq_iff k i, Distinct-snoc k w items)

  pub has-evict :
      (now : ℕ) (j : K) (items : Dict K (ℕ × V))
      → has j items ≡ false
      → has j (evict_expired now items) ≡ false
  unfolding get evict_expired
  has-evict now j [] h = refl
  has-evict now j ((i, x) ∷ items) h = ground (arith, has-evict now j items)

  evict-Distinct :
      (now : ℕ) (items : Dict K (ℕ × V)) → Distinct items → Distinct (evict_expired now items)
  unfolding evict_expired
  evict-Distinct now [] d = tt
  evict-Distinct now ((i, x) ∷ items) d =
      ground (arith, evict-Distinct now items, has-evict now i items)

  shrink-Distinct : (n : ℕ) (items : Dict K (ℕ × V)) → Distinct items → Distinct (shrink n items)
  unfolding shrink
  shrink-Distinct n [] d = tt
  shrink-Distinct n (x ∷ items) d = ground (arith, shrink-Distinct n items)

  length-shrink-le : (n : ℕ) (items : Dict K (ℕ × V)) → length (shrink n items) ≤ n
  unfolding shrink
  length-shrink-le n [] = omega arith
  length-shrink-le n (x ∷ items) = ground (arith, length-shrink-le n items)

  length-evict-le :
      (now : ℕ) (items : Dict K (ℕ × V)) → length (evict_expired now items) ≤ length items
  unfolding evict_expired
  length-evict-le now [] = omega arith
  length-evict-le now (x ∷ items) = ground (arith, length-evict-le now items)

  pub record IsValid (c : CacheManager K V) : Type 0 where
    pub bounded : length c.items ≤ c.maxsize
    pub distinct : Distinct c.items

  pop-snoc-Distinct :
      (k : K) (w : ℕ × V) (items : Dict K (ℕ × V))
      → Distinct items
      → Distinct (pop k items ++ (k, w) ∷ [])
  pop-snoc-Distinct k w items d =
      Distinct-snoc k w (pop k items) (rw has-pop (rw (beq_refl k))) (pop-Distinct k items d)

  set_entry-IsValid :
      (k : K) (v : V) (now later : ℕ) (c : CacheManager K V)
      → IsValid c
      → IsValid (set_entry k v now later c)
  unfolding set_entry
  set_entry-IsValid k v now later c h = record {
    bounded = length-shrink-le c.maxsize _;
    distinct =
        shrink-Distinct c.maxsize _
          (evict-Distinct later _ (pop-snoc-Distinct k (now + c.ttl, v) c.items h.distinct));
  }

  get_entry-IsValid :
      (k : K) (now : ℕ) (c : CacheManager K V) → IsValid c → IsValid (get_entry k now c).1
  unfolding get_entry
  get_entry-IsValid k now c h = elim (Option-cases (get k c.items)) [
    | inl missing ↦ rw missing h
    | inr ((deadline, v), hit) ↦ rw hit (elim (Bool-cases (leb deadline now)) [
      | inl old ↦ rw old (record {
        bounded = omega (arith, h.bounded, length-pop-le k c.items);
        distinct = pop-Distinct k c.items h.distinct;
      })
      | inr live ↦ rw live (record {
        bounded = omega (
          arith,
          h.bounded,
          length-pop_found k c.items (deadline, v) hit,
          length-append (pop k c.items) ((k, (deadline, v)) ∷ []),
        );
        distinct = pop-snoc-Distinct k (deadline, v) c.items h.distinct;
      })
    ])
  ]

-- a call, with the clock readings that it makes
pub data Call (K : Type 0) (V : Type 0) : Type 0 where
  sets : K → V → ℕ → ℕ → Call K V
  gets : K → ℕ → Call K V
  deletes : K → Call K V
  sizes : ℕ → Call K V

module _ {K : Type 0} {V : Type 0} ⦃e : Eq K⦄ where
  unfoldable pub run : List (Call K V) → CacheManager K V → CacheManager K V
  run [] c = c
  run (sets k v now later ∷ cs) c = run cs (set_entry k v now later c)
  run (gets k now ∷ cs) c = run cs (get_entry k now c).1
  run (deletes k ∷ cs) c = run cs (delete k c)
  run (sizes now ∷ cs) c = run cs (size now c).1

  -- A cache within its bound that holds no key twice stays so through any calls, at any times.
  pub run-IsValid : (cs : List (Call K V)) (c : CacheManager K V) → IsValid c → IsValid (run cs c)
  unfolding run delete size
  run-IsValid [] c h = h
  run-IsValid (sets k v now later ∷ cs) c h =
      run-IsValid cs (set_entry k v now later c) (set_entry-IsValid k v now later c h)
  run-IsValid (gets k now ∷ cs) c h =
      run-IsValid cs (get_entry k now c).1 (get_entry-IsValid k now c h)
  run-IsValid (deletes k ∷ cs) c h = run-IsValid cs (delete k c) (record {
    bounded = omega (arith, h.bounded, length-pop-le k c.items);
    distinct = pop-Distinct k c.items h.distinct;
  })
  run-IsValid (sizes now ∷ cs) c h = run-IsValid cs (size now c).1 (record {
    bounded = omega (arith, h.bounded, length-evict-le now c.items);
    distinct = evict-Distinct now c.items h.distinct;
  })
