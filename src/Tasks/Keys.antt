-- ===== src/Tasks/Keys.antt =====
-- The members of the sets that the manager builds from its dicts.
use tdcs.Prelude.{
  String, ◌≡◌, refl, List, [], ◌∷◌, keep, Bool, true, false, ◌&&◌, ◌||◌, arith, ◌==◌, eq_iff,
  text_eq, if◌then◌else◌, Bool-cases, inl, inr,
}
use tdcs.Prelude.Dict.{Dict, get, is_some, contains, contains-add}
use tdcs.Tasks.{all_keys}

pub contains-all_keys {ℓ} :
    {V : Type ℓ} (d : Dict String V) (s : List String) (k : String)
    → contains k (all_keys d s) ≡ (is_some (get k d) || contains k s)
unfolding all_keys get
contains-all_keys [] s k = refl
contains-all_keys ((j, v) ∷ d) s k = elim (Bool-cases (j == k)) [
  | inl same ↦ rw (contains-add j k (all_keys d s), same) refl
  | inr other ↦ rw (contains-add j k (all_keys d s), other) (contains-all_keys d s k)
]

pub contains-keep :
    (p : String → Bool) (s : List String) (k : String)
    → contains k (keep p s) ≡ (p k && contains k s)
unfolding contains
contains-keep p [] k = ground arith
contains-keep p (j ∷ s) k = elim (Bool-cases (j == k)) [
  | inl same ↦ rw ((eq_iff j k).0 same) (at_k (p k) (contains-keep p s k))
  | inr other ↦ other_case (p j) other (contains-keep p s k)
]
  where
    at_k :
        (b : Bool)
        → contains k (keep p s) ≡ (b && contains k s)
        → contains k (if b then k ∷ keep p s else keep p s) ≡ (b && (k == k || contains k s))
    at_k true h = rw h refl
    at_k false h = h

    other_case :
        (b : Bool)
        → j == k ≡ false
        → contains k (keep p s) ≡ (p k && contains k s)
        → contains k (if b then j ∷ keep p s else keep p s) ≡ (p k && (j == k || contains k s))
    other_case true o h = rw (o, h) refl
    other_case false o h = rw o h
