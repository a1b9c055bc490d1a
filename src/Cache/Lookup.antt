-- ===== src/Cache/Lookup.antt =====
-- What a lookup finds after a `set`, and which entry makes room.
use tdcs.Prelude.{
  ℕ, suc, ◌+◌, ◌-◌, ◌<◌, ◌≡◌, some, [], ◌∷◌, ◌++◌, length, drop, true, false, leb, arith, Eq,
  Bool-cases, inl, inr,
}
use tdcs.Prelude.Dict.{Dict, get, pop, beq_refl}
use tdcs.Cache.{CacheManager, is_live, evict_expired, shrink, set_entry, get_entry}
use tdcs.Cache.Invariant.{has, has-pop, has-evict}

module _ {K : Type 0} {V : Type 0} ⦃e : Eq K⦄ where
  get-snoc :
      (k : K) (w : ℕ × V) (items : Dict K (ℕ × V))
      → has k items ≡ false
      → get k (items ++ (k, w) ∷ []) ≡ some w
  unfolding get
  get-snoc k w [] h = rw (beq_refl k)
  get-snoc k w ((i, x) ∷ items) h = ground (arith, get-snoc k w items)

  has-tail :
      (k i : K) (x : ℕ × V) (items : Dict K (ℕ × V))
      → has k ((i, x) ∷ items) ≡ false
      → has k items ≡ false
  unfolding get
  has-tail k i x items h = ground arith

  evict-snoc :
      (now : ℕ) (x : K × (ℕ × V)) (items : Dict K (ℕ × V))
      → is_live now x ≡ true
      → evict_expired now (items ++ x ∷ []) ≡ evict_expired now items ++ x ∷ []
  unfolding evict_expired
  evict-snoc now x [] h = rw h
  evict-snoc now x (y ∷ items) h = ground (arith, evict-snoc now x items h)

  get-shrink-snoc :
      (n : ℕ) (k : K) (w : ℕ × V) (items : Dict K (ℕ × V))
      → has k items ≡ false
      → get k (shrink (suc n) (items ++ (k, w) ∷ [])) ≡ some w
  unfolding shrink
  get-shrink-snoc n k w [] h = ground (arith, get-snoc k w [] h)
  get-shrink-snoc n k w ((i, x) ∷ items) h =
      elim (Bool-cases (leb (suc (length (items ++ (k, w) ∷ []))) (suc n))) [
        | inl fits ↦ rw fits (get-snoc k w ((i, x) ∷ items) h)
        | inr over ↦ rw over (get-shrink-snoc n k w items (has-tail k i x items h))
      ]

  found_live :
      (k : K) (now deadline : ℕ) (v : V) (c : CacheManager K V)
      → get k c.items ≡ some (deadline, v)
      → now < deadline
      → (get_entry k now c).0 ≡ some v
  unfolding get_entry
  found_live k now deadline v c h live = rw h (ground arith)

  -- In a cache that may hold an entry, a lookup of a key that comes before the key's deadline and
  -- next after its `set` finds the value that was set, if the clock has not run past the deadline
  -- within the `set` either.
  pub get_entry-set_entry :
      (k : K) (v : V) (now later at : ℕ) (c : CacheManager K V)
      → 0 < c.maxsize
      → later < now + c.ttl
      → at < now + c.ttl
      → (get_entry k at (set_entry k v now later c)).0 ≡ some v
  get_entry-set_entry k v now later at c room early soon =
      found_live k at (now + c.ttl) v (set_entry k v now later c) stored soon
    where
      one_more : c.maxsize ≡ suc (c.maxsize - 1)
      one_more = omega arith

      stored : get k (set_entry k v now later c).items ≡ some (now + c.ttl, v)
      stored =
          unfold set_entry in
          rw (evict-snoc later (k, (now + c.ttl, v)) (pop k c.items) (ground arith)) (
            rw one_more (
              get-shrink-snoc (c.maxsize - 1) k (now + c.ttl, v)
                (evict_expired later (pop k c.items))
                (has-evict later k (pop k c.items) (rw has-pop (rw (beq_refl k))))))

  -- Making room keeps the last entries in the order of use, as many as fit: it drops the front of
  -- the entries and nothing else.
  pub shrink-eq-drop :
      (n : ℕ) (items : Dict K (ℕ × V)) → shrink n items ≡ drop (length items - n) items
  unfolding shrink
  shrink-eq-drop n [] = ground arith
  shrink-eq-drop n (x ∷ items) = elim (Bool-cases (leb (length (x ∷ items)) n)) [
    | inl fits ↦ rw fits (let z : suc (length items) - n ≡ 0 = ground arith in rw z)
    | inr over ↦ rw over (
        let z : suc (length items) - n ≡ suc (length items - n) = ground arith in
        rw z (shrink-eq-drop n items))
  ]
