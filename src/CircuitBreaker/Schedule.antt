-- ===== src/CircuitBreaker/Schedule.antt =====
-- The breaker under any order of events: requests that ask for admission, responses that come
-- back, and the administrator's reset. Calls of `execute` that overlap are such orders too.
use apicenter_hehe.Common.{ℕ, ◌<◌, ◌≡◌, List, [], ◌∷◌, arith}
use apicenter_hehe.CircuitBreaker.{
  CircuitBreaker, closed, half_open, reset, try_acquire, record_success, record_failure,
}

pub data Event : Type 0 where
  acquire : ℕ → Event
  success : Event
  failure : ℕ → Event
  admin_reset : Event

unfoldable pub step : Event → CircuitBreaker → CircuitBreaker
unfolding try_acquire record_success record_failure reset
step (acquire now) b = (try_acquire now b).1
step success b = record_success b
step (failure now) b = record_failure now b
step admin_reset b = reset b

unfoldable pub run : List Event → CircuitBreaker → CircuitBreaker
run [] b = b
run (e ∷ es) b = run es (step e b)

-- Closed means fewer failures than the threshold, half-open fewer successes than theirs.
pub record IsSound (b : CircuitBreaker) : Type 0 where
  pub failures_possible : 0 < b.failure_threshold
  pub successes_possible : 0 < b.success_threshold
  pub below_failures : b.state ≡ closed → b.failure_count < b.failure_threshold
  pub below_successes : b.state ≡ half_open → b.success_count < b.success_threshold

step-IsSound : (e : Event) (b : CircuitBreaker) → IsSound b → IsSound (step e b)
unfolding step
step-IsSound (acquire now) b s = ground arith
step-IsSound success b s = ground arith
step-IsSound (failure now) b s = ground arith
step-IsSound admin_reset b s = ground arith

-- From a sound breaker, whatever the order of admissions, responses and resets, a closed breaker
-- has counted fewer failures than its threshold, and a half-open one fewer successes than its own.
pub run-IsSound : (es : List Event) (b : CircuitBreaker) → IsSound b → IsSound (run es b)
unfolding run
run-IsSound [] b s = s
run-IsSound (e ∷ es) b s = run-IsSound es (step e b) (step-IsSound e b s)

pub induction {ℓ} :
    (P : CircuitBreaker → Type ℓ)
    → ((e : Event) (b : CircuitBreaker) → P b → P (step e b))
    → (es : List Event) (b : CircuitBreaker) → P b
    → P (run es b)
unfolding run
induction P keep [] b h = h
induction P keep (e ∷ es) b h = induction P keep es (step e b) (keep e b h)
