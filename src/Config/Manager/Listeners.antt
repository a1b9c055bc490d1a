-- ===== src/Config/Manager/Listeners.antt =====
-- Registering a listener and taking it back.
use tdcs.Prelude.{
  some, List, [], ◌∷◌, ◌++◌, Bool, true, false, ◌≡◌, refl, ap, ◌==◌, Eq, Bool-cases, inl, inr,
  arith,
}
use tdcs.Prelude.Dict.{contains, beq_refl}
use tdcs.Config.Manager.{ConfigManager, add_listener, remove_listener, remove_first}

module _ {L : Type 0} ⦃e : Eq L⦄ where
  remove_first-append :
      (l : L) (ls : List L) → contains l ls ≡ false → remove_first l (ls ++ l ∷ []) ≡ ls
  unfolding remove_first contains
  remove_first-append l [] h = rw (beq_refl l) refl
  remove_first-append l (k ∷ ks) h = elim (Bool-cases (k == l)) [
    | inl same ↦ ground arith
    | inr other ↦ rw other (ap (◌∷◌ k) (remove_first-append l ks (ground arith)))
  ]

  -- A callable listener that is not registered, once added and removed again, leaves the manager as
  -- it was; adding it a second time changes nothing.
  pub remove_listener-add_listener :
      (callable : L → Bool) (l : L) (m : ConfigManager L)
      → callable l ≡ true
      → contains l m.listeners ≡ false
      → (added : ConfigManager L) × ((add_listener callable l m ≡ some added)
          × ((remove_listener l added ≡ m) × (add_listener callable l added ≡ some added)))
  unfolding add_listener remove_listener contains
  remove_listener-add_listener callable l m can fresh = (
    record m { listeners = m.listeners ++ l ∷ [] },
    (
      rw (can, fresh) refl,
      (
        ap (λ ls. record m { listeners = ls }) (remove_first-append l m.listeners fresh),
        rw (can, contains-append m.listeners) refl,
      ),
    ),
  )
    where
      contains-append : (ls : List L) → contains l (ls ++ l ∷ []) ≡ true
      contains-append [] = rw (contains, beq_refl l) refl
      contains-append (k ∷ ks) = rw (contains, contains-append ks) (ground arith)
