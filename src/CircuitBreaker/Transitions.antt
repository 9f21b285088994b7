-- ===== src/CircuitBreaker/Transitions.antt =====
-- Which changes of state there are, and what the listener `onStateChange` is told of them.
use apicenter_hehe.Common.{ℕ, ◌≤◌, ◌+◌, String, ◌≡◌, refl, ◌≢◌, ◌⊎◌, List, [], ◌∷◌, arith}
use apicenter_hehe.CircuitBreaker.{
  CircuitState, closed, opened, half_open, Transition, CircuitBreaker, CircuitBreakerOptions,
  create, record_failure,
}
use apicenter_hehe.CircuitBreaker.Schedule.{
  Event, acquire, success, failure, admin_reset, step, run, induction,
}

-- The edges of the state machine that an event may take.
abbrev pub Edge : Event → CircuitState → CircuitState → Type 0
Edge (acquire now) from to = (from ≡ opened) × (to ≡ half_open)
Edge success from to = (from ≡ half_open) × (to ≡ closed)
Edge (failure now) from to = (from ≢ opened) × (to ≡ opened)
Edge admin_reset from to = to ≡ closed

-- An event changes the state along an edge of the state machine or not at all: only a failure
-- opens the breaker, only an admission leaves OPEN for HALF_OPEN, only a success in HALF_OPEN or
-- the administrator closes it.
pub step-Edge :
    (e : Event) (b : CircuitBreaker)
    → ((step e b).state ≡ b.state) ⊎ Edge e b.state (step e b).state
unfolding step
step-Edge (acquire now) b = ground arith
step-Edge success b = ground arith
step-Edge (failure now) b = ground arith
step-Edge admin_reset b = ground arith

abbrev pub Leads : List Transition → CircuitState → Type 0
Leads [] s = s ≡ closed
Leads (t ∷ ts) s = (t.to ≡ s) × Leads ts t.from

step-Leads :
    (e : Event) (b : CircuitBreaker)
    → Leads b.notified b.state
    → Leads (step e b).notified (step e b).state
unfolding step
step-Leads (acquire now) b h = ground arith
step-Leads success b h = ground arith
step-Leads (failure now) b h = ground arith
step-Leads admin_reset b h = ground arith

-- Whatever happens to a new breaker, the calls of its listener, newest first, form a chain: each
-- call starts in the state where the call before it ended, the first in CLOSED, and the newest
-- ends in the present state; with no call the breaker is CLOSED.
pub run-Leads :
    (name : String) (options : CircuitBreakerOptions) (es : List Event)
    → Leads (run es (create name options)).notified (run es (create name options)).state
unfolding create
run-Leads name options es =
    induction (λ b. Leads b.notified b.state) step-Leads es (create name options) refl

-- A failure that comes back while the breaker is OPEN with its count at the threshold is reported
-- as a change from OPEN to OPEN, and restarts the cooldown.
late_failure :
    (now : ℕ) (b : CircuitBreaker)
    → b.state ≡ opened
    → b.failure_threshold ≤ b.failure_count + 1
    → ((record_failure now b).notified ≡ record { from = opened; to = opened } ∷ b.notified)
      × ((record_failure now b).state ≡ opened)
      × ((record_failure now b).last_failure_time ≡ now)
unfolding record_failure
late_failure now b h k = ground arith
