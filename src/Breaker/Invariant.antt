-- ===== src/Breaker/Invariant.antt =====
-- The breaker's fields agree with its state, after any history of calls.
use tdcs.Prelude.{ℕ, ◌<◌, ◌≡◌, refl, List, [], ◌∷◌, arith}
use tdcs.Breaker.{
  CircuitState, closed, CircuitBreaker, new_breaker, is_half_open, allow, record_success,
  record_failure, Event, ask, success, failure, handle, replay,
}

-- below the threshold while closed
abbrev pub Counted : CircuitState → ℕ → ℕ → Type 0
Counted closed failures threshold = failures < threshold
Counted _ failures threshold = Unit

pub record IsValid (b : CircuitBreaker) : Type 0 where
  pub threshold_pos : 0 < b.failure_threshold
  pub counted : Counted b.state b.failures b.failure_threshold
  pub probing : b.half_open_in_progress ≡ is_half_open b.state

pub new_breaker-IsValid : IsValid new_breaker
new_breaker-IsValid = record { threshold_pos = omega arith; counted = omega arith; probing = refl }

pub allow-IsValid : (now stamp : ℕ) (b : CircuitBreaker) → IsValid b → IsValid (allow now stamp b).1
unfolding allow
allow-IsValid now stamp b v = ground arith

pub record_success-IsValid : (b : CircuitBreaker) → IsValid b → IsValid (record_success b)
unfolding record_success
record_success-IsValid b v = ground arith

pub record_failure-IsValid :
    (now : ℕ) (b : CircuitBreaker) → IsValid b → IsValid (record_failure now b)
unfolding record_failure
record_failure-IsValid now b v = ground arith

handle-IsValid : (b : CircuitBreaker) (e : Event) → IsValid b → IsValid (handle b e)
unfolding handle
handle-IsValid b (ask now stamp) v = allow-IsValid now stamp b v
handle-IsValid b success v = record_success-IsValid b v
handle-IsValid b (failure now) v = record_failure-IsValid now b v

-- Whatever calls reach a valid breaker, in any order and at any times, it stays valid: a probe is
-- marked as running exactly in HALF_OPEN, and while CLOSED the failure count is below the
-- threshold.
pub replay-IsValid : (b : CircuitBreaker) (es : List Event) → IsValid b → IsValid (replay b es)
unfolding replay
replay-IsValid b [] v = v
replay-IsValid b (e ∷ es) v = replay-IsValid (handle b e) es (handle-IsValid b e v)
