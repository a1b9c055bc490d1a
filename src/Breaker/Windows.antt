-- ===== src/Breaker/Windows.antt =====
-- When the breaker opens, and how it keeps callers out.
use tdcs.Prelude.{
  ℕ, ◌+◌, ◌≤◌, ◌<◌, ◌≡◌, ◌≢◌, refl, List, [], ◌∷◌, map, Bool, true, false, arith, All, length, inl,
  inr, Bool-cases, leb, if◌then◌else◌,
}
use tdcs.Breaker.{
  CircuitState, closed, opened, half_open, CircuitBreaker, allow, record_failure, Event, failure,
  handle, replay,
}
use tdcs.Breaker.Invariant.{IsValid, allow-IsValid, record_failure-IsValid}

-- a failure at each of the times
abbrev pub failing : List ℕ → List Event
failing = map failure

failing_opened :
    (b : CircuitBreaker) (times : List ℕ)
    → b.state ≡ opened
    → (replay b (failing times)).state ≡ opened
unfolding replay handle record_failure
failing_opened b [] o = o
failing_opened b (t ∷ ts) o = failing_opened (record_failure t b) ts (ground arith)

-- A valid CLOSED breaker that sees nothing but failures ends OPEN if the failures since its last
-- success have reached the threshold, and CLOSED otherwise.
pub replay-failing :
    (b : CircuitBreaker) (times : List ℕ)
    → b.state ≡ closed
    → IsValid b
    → (replay b (failing times)).state
      ≡ (if leb b.failure_threshold (b.failures + length times) then opened else closed)
unfolding replay handle record_failure
replay-failing b [] c v = ground arith
replay-failing b (t ∷ ts) c v = elim (Bool-cases (leb b.failure_threshold (b.failures + 1))) [
  | inl reached ↦ ground (arith, failing_opened (record_failure t b) ts)
  | inr below ↦ ground (arith, replay-failing (record_failure t b) ts, record_failure-IsValid t b v)
]

-- The answers of a run of `allow` calls, each with its two clock readings, and the last breaker.
pub allow_all : CircuitBreaker → List (ℕ × ℕ) → List Bool × CircuitBreaker
allow_all b [] = ([], b)
allow_all b ((now, stamp) ∷ ts) =
    let (answer, b') = allow now stamp b in
    let (answers, b'') = allow_all b' ts in (answer ∷ answers, b'')

abbrev pub denied : List (ℕ × ℕ) → List Bool
denied = map (λ _. false)

-- the last reading at which a breaker that is not CLOSED keeps callers out
abbrev deadline_in : CircuitState → CircuitBreaker → ℕ
deadline_in half_open b = b.half_open_at + b.recovery_timeout
deadline_in _ b = b.opened_at + b.recovery_timeout

abbrev pub deadline : CircuitBreaker → ℕ
deadline b = deadline_in b.state b

denied_once :
    (b : CircuitBreaker) (now stamp : ℕ)
    → IsValid b
    → b.state ≢ closed
    → now ≤ deadline b
    → allow now stamp b ≡ (false, b)
unfolding allow
denied_once b now stamp v n h = ground arith

-- A valid breaker that is OPEN or HALF_OPEN refuses every call of a run that reads the clock no
-- later than its deadline, and the run leaves it as it was.
pub denied_until_deadline :
    (b : CircuitBreaker) (ts : List (ℕ × ℕ))
    → IsValid b
    → b.state ≢ closed
    → All (λ t. t.0 ≤ deadline b) ts
    → allow_all b ts ≡ (denied ts, b)
unfolding allow_all
denied_until_deadline b [] v n h = refl
denied_until_deadline b ((now, stamp) ∷ ts) v n h =
    rw (denied_once b now stamp v n h.0) (rw (denied_until_deadline b ts v n h.1))

granted :
    (b : CircuitBreaker) (now stamp : ℕ)
    → IsValid b
    → b.state ≢ closed
    → deadline b < now
    → let (answer, b') = allow now stamp b in
      (answer ≡ true) × (b'.state ≡ half_open) × (deadline b' ≡ stamp + b.recovery_timeout)
unfolding allow
granted b now stamp v n h = ground arith

-- Past its deadline a valid breaker that is not CLOSED lets one call through as the probe, and
-- then refuses every call of a run that reads the clock at most `recovery_timeout` after the
-- probe's stamp.
pub one_probe_per_window :
    (b : CircuitBreaker) (now stamp : ℕ) (ts : List (ℕ × ℕ))
    → IsValid b
    → b.state ≢ closed
    → deadline b < now
    → All (λ t. t.0 ≤ stamp + b.recovery_timeout) ts
    → (allow_all b ((now, stamp) ∷ ts)).0 ≡ true ∷ denied ts
unfolding allow_all
one_probe_per_window b now stamp ts v n h within =
    let b' = (allow now stamp b).1 in
    let g = granted b now stamp v n h in
    let later : allow_all b' ts ≡ (denied ts, b') =
      denied_until_deadline b' ts (allow-IsValid now stamp b v) (ground (arith, g))
        (rw g.2 within) in
    rw (later, g.0)
