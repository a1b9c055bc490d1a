-- ===== src/Breaker/Tests.antt =====
-- The breaker's theorems at concrete breakers.
use tdcs.Prelude.{List, [], ◌∷◌, ◌≡◌, true, false, arith}
use tdcs.Breaker.{CircuitBreaker, opened, new_breaker, Event, ask, success, failure, replay}
use tdcs.Breaker.Invariant.{IsValid, replay-IsValid}
use tdcs.Breaker.Windows.{allow_all, denied_until_deadline, one_probe_per_window}

abbrev history : List Event
history = failure 1 ∷ failure 2 ∷ success ∷ failure 3 ∷ ask 4 4 ∷ []

abbrev tripped : CircuitBreaker
tripped = record new_breaker { state = opened; failures = 5; opened_at = 100 }

new_breaker-IsValid : IsValid new_breaker
new_breaker-IsValid = ground arith

tripped-IsValid : IsValid tripped
tripped-IsValid = ground arith

replay-IsValid_example : IsValid (replay new_breaker history)
replay-IsValid_example = replay-IsValid new_breaker history new_breaker-IsValid

one_probe_per_window_example :
    (allow_all tripped ((161, 162) ∷ (170, 171) ∷ (222, 223) ∷ [])).0 ≡ true ∷ false ∷ false ∷ []
one_probe_per_window_example =
    one_probe_per_window tripped 161 162 ((170, 171) ∷ (222, 223) ∷ []) tripped-IsValid
      (ground arith) (omega arith) (omega arith, (omega arith, tt))

denied_until_deadline_example :
    allow_all tripped ((101, 101) ∷ (160, 160) ∷ []) ≡ (false ∷ false ∷ [], tripped)
denied_until_deadline_example =
    denied_until_deadline tripped ((101, 101) ∷ (160, 160) ∷ []) tripped-IsValid (ground arith)
      (omega arith, (omega arith, tt))
