-- ===== src/Witnesses/Breaker.antt =====
-- Instances for shared/circuit-breaker.ts.
use apicenter_hehe.Common.{◌≡◌, refl, true, some, List, [], ◌∷◌, arith}
use apicenter_hehe.CircuitBreaker.{
  CircuitBreaker, CircuitBreakerOptions, closed, opened, half_open, create, try_acquire,
}
use apicenter_hehe.CircuitBreaker.Schedule.{
  Event, acquire, success, failure, run, IsSound, run-IsSound, step,
}
use apicenter_hehe.CircuitBreaker.Threshold.{successes, recovery}

abbrev options : CircuitBreakerOptions
options = record {
  failure_threshold = some 2;
  reset_timeout_ms = some 100;
  success_threshold = some 2;
}

abbrev breaker : CircuitBreaker
breaker = record {
  name = "b";
  state = closed;
  failure_count = 0;
  success_count = 0;
  last_failure_time = 0;
  failure_threshold = 2;
  reset_timeout_ms = 100;
  success_threshold = 2;
  notified = [];
}

abbrev tripped : CircuitBreaker
tripped = record breaker { state = opened; failure_count = 2; last_failure_time = 1000 }

abbrev probing : CircuitBreaker
probing = record tripped { state = half_open }

abbrev events : List Event
events = failure 1 ∷ (failure 2 ∷ (acquire 200 ∷ (success ∷ (success ∷ []))))

test_create : create "b" options ≡ breaker
unfolding create
test_create = refl

test_run : (run events breaker).state ≡ closed
unfolding run step
test_run = refl

breaker-IsSound : IsSound breaker
breaker-IsSound = record {
  failures_possible = omega arith;
  successes_possible = omega arith;
  below_failures = λ h. omega arith;
  below_successes = λ h. omega arith;
}

run-IsSound_example : IsSound (run events breaker)
run-IsSound_example = run-IsSound events breaker breaker-IsSound

recovery_example :
    ((try_acquire 1100 tripped).0 ≡ true)
    × ((successes 2 (try_acquire 1100 tripped).1).state ≡ closed)
recovery_example = recovery 1100 2 tripped refl (omega arith) (omega arith)
