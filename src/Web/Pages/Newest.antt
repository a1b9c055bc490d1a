-- ===== src/Web/Pages/Newest.antt =====
-- The order of the query of `list_files` in src/web/api/files.py, ORDER BY created_at DESC, over
-- rows of which no two were created at one time.
use tdcs.Prelude.{ℕ, ◌<◌, ◌≡◌, refl, ap, sym, ◌∙◌, ◌⊎◌, ◌↔◌, List, [], ◌∷◌, All, inl, inr, arith}

-- the row is one of a list
abbrev pub IsIn : {A : Type 0} → A → List A → Type 0
IsIn x [] = ⊥
IsIn x (y ∷ ys) = (x ≡ y) ⊎ IsIn x ys

module _ {A : Type 0} (created_at : A → ℕ) where
  -- each row was created later than those behind it
  abbrev pub NewestFirst : List A → Type 0
  NewestFirst [] = Unit
  NewestFirst (x ∷ xs) = All (λ y. created_at y < created_at x) xs × NewestFirst xs

  -- what a query over the rows gives
  abbrev pub Gives : List A → List A → Type 0
  Gives rows xs = NewestFirst xs × ((x : A) → IsIn x xs ↔ IsIn x rows)

  newer :
      (x y : A) (xs : List A)
      → All (λ z. created_at z < created_at x) xs
      → IsIn y xs
      → created_at y < created_at x
  newer x y [] h i = absurd i
  newer x y (z ∷ zs) h (inl e) =
      let q : created_at y ≡ created_at z = ap created_at e in omega (arith, h.0, q)
  newer x y (z ∷ zs) h (inr i) = newer x y zs h.1 i

  same_head :
      (x y : A) (xs ys : List A)
      → All (λ z. created_at z < created_at x) xs
      → All (λ z. created_at z < created_at y) ys
      → IsIn x (y ∷ ys)
      → IsIn y (x ∷ xs)
      → x ≡ y
  same_head x y xs ys hx hy (inl e) j = e
  same_head x y xs ys hx hy (inr i) (inl e) = sym e
  same_head x y xs ys hx hy (inr i) (inr j) =
      let a = newer y x ys hy i in let b = newer x y xs hx j in absurd (omega (arith, a, b))

  -- a row of the one tail is no other's head
  tail_row :
      (x y z : A) (xs ys : List A)
      → x ≡ y
      → All (λ z. created_at z < created_at x) xs
      → IsIn z xs
      → IsIn z (y ∷ ys)
      → IsIn z ys
  tail_row x y z xs ys e h i (inl q) =
      let a = newer x z xs h i in
      let b : created_at z ≡ created_at x = ap created_at (q ∙ sym e) in
      absurd (omega (arith, a, b))
  tail_row x y z xs ys e h i (inr j) = j

  -- There is one such order of the same rows.
  pub one_order :
      (xs ys : List A)
      → NewestFirst xs
      → NewestFirst ys
      → ((x : A) → IsIn x xs ↔ IsIn x ys)
      → xs ≡ ys
  one_order [] [] sx sy same = refl
  one_order [] (y ∷ ys) sx sy same = absurd ((same y).1 (inl refl))
  one_order (x ∷ xs) [] sx sy same = absurd ((same x).0 (inl refl))
  one_order (x ∷ xs) (y ∷ ys) sx sy same =
      let heads : x ≡ y =
        same_head x y xs ys sx.0 sy.0 ((same x).0 (inl refl)) ((same y).1 (inl refl)) in
      let tails : xs ≡ ys = one_order xs ys sx.1 sy.1 (λ z. (
        (λ i. tail_row x y z xs ys heads sx.0 i ((same z).0 (inr i))),
        (λ i. tail_row y x z ys xs (sym heads) sy.0 i ((same z).1 (inr i))),
      )) in
      λ i. heads i ∷ tails i
