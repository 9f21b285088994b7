-- ===== src/CircuitBreaker.antt =====
-- shared/circuit-breaker.ts: the class `CircuitBreaker`. A method returns the new object.
-- `Date.now()` is an argument, in milliseconds; the log lines are left out, and `notified` holds
-- the calls of `onStateChange` in order, oldest last (the name of the breaker is the caller's).
-- `Date.now() - lastFailureTime >= resetTimeoutMs` is a comparison of integers, written as a sum.
pub mod Threshold
pub mod Guarantees
pub mod Schedule
pub mod Transitions
use apicenter_hehe.Common.{
  ℕ, ◌+◌, String, Bool, true, false, Option, List, [], ◌∷◌, leb, if◌then◌else◌, get_or,
}

pub data CircuitState : Type 0 where
  closed opened half_open : CircuitState

-- The values of the enumeration, as they are passed on.
abbrev pub state_text : CircuitState → String
state_text closed = "CLOSED"
state_text opened = "OPEN"
state_text half_open = "HALF_OPEN"

pub record Transition : Type 0 where
  pub from : CircuitState
  pub to : CircuitState

pub record CircuitBreakerOptions : Type 0 where
  pub failure_threshold : Option ℕ
  pub reset_timeout_ms : Option ℕ
  pub success_threshold : Option ℕ

pub record CircuitBreaker : Type 0 where
  pub name : String
  pub state : CircuitState
  pub failure_count : ℕ
  pub success_count : ℕ
  pub last_failure_time : ℕ
  pub failure_threshold : ℕ
  pub reset_timeout_ms : ℕ
  pub success_threshold : ℕ
  pub notified : List Transition

unfoldable pub create : String → CircuitBreakerOptions → CircuitBreaker
create name options = record {
  name = name;
  state = closed;
  failure_count = 0;
  success_count = 0;
  last_failure_time = 0;
  failure_threshold = get_or options.failure_threshold 5;
  reset_timeout_ms = get_or options.reset_timeout_ms 30000;
  success_threshold = get_or options.success_threshold 2;
  notified = [];
}

-- The assignment to `state` and the call of `onStateChange` that follows it.
abbrev pub transition : CircuitState → CircuitBreaker → CircuitBreaker
transition s b = record b { state = s; notified = record { from = b.state; to = s } ∷ b.notified }

-- `reset` tells the listener only of a change.
abbrev change : CircuitState → CircuitBreaker → CircuitBreaker
change closed b = record b { state = closed }
change _ b = transition closed b

unfoldable pub reset : CircuitBreaker → CircuitBreaker
reset b = record (change b.state b) { failure_count = 0; success_count = 0; last_failure_time = 0 }

-- The cooldown is over.
abbrev pub cooled : ℕ → CircuitBreaker → Bool
cooled now b = leb (b.last_failure_time + b.reset_timeout_ms) now

abbrev pub to_half_open : CircuitBreaker → CircuitBreaker
to_half_open b = record (transition half_open b) { success_count = 0 }

abbrev acquire_in : CircuitState → ℕ → CircuitBreaker → Bool × CircuitBreaker
acquire_in opened now b = if cooled now b then (true, to_half_open b) else (false, b)
acquire_in _ now b = (true, b)

unfoldable pub try_acquire : ℕ → CircuitBreaker → Bool × CircuitBreaker
try_acquire now b = acquire_in b.state now b

abbrev closed_again : CircuitBreaker → CircuitBreaker
closed_again b = record (transition closed b) { failure_count = 0; success_count = 0 }

abbrev success_in : CircuitState → CircuitBreaker → CircuitBreaker
success_in half_open b =
    let counted = record b { success_count = b.success_count + 1 } in
    if leb counted.success_threshold counted.success_count then closed_again counted else counted
success_in _ b = record b { failure_count = 0 }

unfoldable pub on_success : CircuitBreaker → CircuitBreaker
on_success b = success_in b.state b

abbrev failure_in : CircuitState → CircuitBreaker → CircuitBreaker
failure_in half_open b = transition opened b
failure_in _ b = if leb b.failure_threshold b.failure_count then transition opened b else b

unfoldable pub on_failure : ℕ → CircuitBreaker → CircuitBreaker
on_failure now b =
    failure_in b.state (record b { failure_count = b.failure_count + 1; last_failure_time = now })

unfoldable pub record_success : CircuitBreaker → CircuitBreaker
unfolding on_success
record_success b = on_success b

unfoldable pub record_failure : ℕ → CircuitBreaker → CircuitBreaker
unfolding on_failure
record_failure now b = on_failure now b

-- What the wrapped promise does: it resolves, or it rejects with an error.
pub data Settled {ℓ κ} (T : Type ℓ) (E : Type κ) : Type (ℓ ⊔ κ) where
  resolved : T → Settled T E
  failed : E → Settled T E

-- What `execute` does: it passes on what the promise did, or rejects without running it.
pub data Executed {ℓ κ} (T : Type ℓ) (E : Type κ) : Type (ℓ ⊔ κ) where
  result : T → Executed T E
  thrown : E → Executed T E
  rejected_open : Executed T E

module _ {ℓ κ} {T : Type ℓ} {E : Type κ} where
  abbrev settle : Settled T E → ℕ → CircuitBreaker → Executed T E × CircuitBreaker
  settle (resolved t) now b = (result t, on_success b)
  settle (failed e) now b = (thrown e, on_failure now b)

  abbrev execute_in :
      CircuitState → ℕ → Settled T E → ℕ → CircuitBreaker → Executed T E × CircuitBreaker
  execute_in opened now settled later b =
      if cooled now b then settle settled later (to_half_open b) else (rejected_open, b)
  execute_in _ now settled later b = settle settled later b

  -- `now` is read before the call and `later` when its promise settles; nothing else uses the
  -- breaker between the two (`Schedule` has the interleavings).
  unfoldable pub execute : ℕ → Settled T E → ℕ → CircuitBreaker → Executed T E × CircuitBreaker
  execute now settled later b = execute_in b.state now settled later b

pub record Stats : Type 0 where
  pub name : String
  pub state : CircuitState
  pub failure_count : ℕ
  pub success_count : ℕ
  pub last_failure_time : Option ℕ

-- A time of 0 is falsy, and shows as `null`; another is shown by its date.
unfoldable pub get_stats : CircuitBreaker → Stats
get_stats b = record {
  name = b.name;
  state = b.state;
  failure_count = b.failure_count;
  success_count = b.success_count;
  last_failure_time =
      if leb b.last_failure_time 0 then Option.none else Option.some b.last_failure_time;
}
