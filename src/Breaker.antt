-- ===== src/Breaker.antt =====
-- `CircuitBreaker` of src/infrastructure/worker_pool.py: one breaker for each task. Times are
-- readings of `time.monotonic()`, as numbers of the clock's unit, and `now - t > d` is
-- `t + d < now`. A method that reads the clock twice takes both readings.
pub mod Invariant
pub mod Windows
mod Tests
use tdcs.Prelude.{ℕ, ◌+◌, ◌≡◌, List, [], ◌∷◌, Bool, true, false, ltb, leb, ◌||◌, if◌then◌else◌}

pub data CircuitState : Type 0 where
  closed opened half_open : CircuitState

pub record CircuitBreaker : Type 0 where
  pub failure_threshold : ℕ
  pub recovery_timeout : ℕ
  pub state : CircuitState
  pub failures : ℕ
  pub opened_at : ℕ
  pub half_open_in_progress : Bool
  pub half_open_at : ℕ

-- `CircuitBreaker()`
abbrev pub new_breaker : CircuitBreaker
new_breaker = record {
  failure_threshold = 5;
  recovery_timeout = 60;
  state = closed;
  failures = 0;
  opened_at = 0;
  half_open_in_progress = false;
  half_open_at = 0;
}

-- the branches of `allow`, by state; `now` is read by the test and `stamp` by the assignment
abbrev allow_in : CircuitState → ℕ → ℕ → CircuitBreaker → Bool × CircuitBreaker
allow_in closed now stamp b = (true, b)
allow_in opened now stamp b =
    if ltb (b.opened_at + b.recovery_timeout) now
    then (true, record b { state = half_open; half_open_at = stamp; half_open_in_progress = true })
    else (false, b)
allow_in half_open now stamp b =
    if b.half_open_in_progress
    then (if ltb (b.half_open_at + b.recovery_timeout) now
        then (true, record b { half_open_in_progress = true; half_open_at = stamp })
        else (false, b))
    else (true, record b { half_open_in_progress = true; half_open_at = stamp })

unfoldable pub allow : ℕ → ℕ → CircuitBreaker → Bool × CircuitBreaker
allow now stamp b = allow_in b.state now stamp b

unfoldable pub record_success : CircuitBreaker → CircuitBreaker
record_success b = record b { failures = 0; half_open_in_progress = false; state = closed }

abbrev pub is_half_open : CircuitState → Bool
is_half_open half_open = true
is_half_open _ = false

unfoldable pub record_failure : ℕ → CircuitBreaker → CircuitBreaker
record_failure now b =
    let failed = record b { half_open_in_progress = false; failures = b.failures + 1 } in
    if is_half_open b.state || leb b.failure_threshold (b.failures + 1)
    then record failed { state = opened; opened_at = now }
    else failed

-- What a caller does with a breaker, and a history of such calls. `granted` is not recorded: a
-- worker may report a result at any time.
pub data Event : Type 0 where
  ask : ℕ → ℕ → Event
  success : Event
  failure : ℕ → Event

unfoldable pub handle : CircuitBreaker → Event → CircuitBreaker
handle b (ask now stamp) = (allow now stamp b).1
handle b success = record_success b
handle b (failure now) = record_failure now b

unfoldable pub replay : CircuitBreaker → List Event → CircuitBreaker
replay b [] = b
replay b (e ∷ es) = replay (handle b e) es
