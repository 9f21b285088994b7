-- ===== src/CircuitBreaker/Threshold.antt =====
-- Counting: when failures open the breaker, and when successes close it again.
use apicenter_hehe.Common.{
  ℕ, zero, suc, ◌+◌, ◌≤◌, ◌<◌, ◌≡◌, true, le→leb, List, [], ◌∷◌, arith, leb, if◌then◌else◌, length,
}
use apicenter_hehe.CircuitBreaker.{
  closed, opened, half_open, CircuitBreaker, cooled, try_acquire, record_success, record_failure,
}

-- Failures in a row, at the given times.
pub failures : List ℕ → CircuitBreaker → CircuitBreaker
failures [] b = b
failures (now ∷ ts) b = failures ts (record_failure now b)

failures-opened :
    (ts : List ℕ) (b : CircuitBreaker) → b.state ≡ opened → (failures ts b).state ≡ opened
unfolding failures
failures-opened [] b h = h
failures-opened (now ∷ ts) b h =
    failures-opened ts (record_failure now b) (unfold record_failure in ground arith)

failure_in_closed :
    (now : ℕ) (b : CircuitBreaker)
    → b.state ≡ closed
    → ((record_failure now b).state
        ≡ (if leb b.failure_threshold (b.failure_count + 1) then opened else closed))
      × ((record_failure now b).failure_count ≡ b.failure_count + 1)
      × ((record_failure now b).failure_threshold ≡ b.failure_threshold)
unfolding record_failure
failure_in_closed now b h = ground arith

-- A closed breaker below its threshold is OPEN after `length ts` failures in a row exactly when
-- these and the failures counted before reach the threshold, and CLOSED otherwise.
pub state-failures :
    (ts : List ℕ) (b : CircuitBreaker)
    → b.state ≡ closed
    → b.failure_count < b.failure_threshold
    → (failures ts b).state
      ≡ (if leb b.failure_threshold (b.failure_count + length ts) then opened else closed)
unfolding failures
state-failures [] b h k = ground arith
state-failures (now ∷ ts) b h k = ground (
  arith,
  failure_in_closed now b h,
  failures-opened ts (record_failure now b),
  state-failures ts (record_failure now b),
)

-- Successes in a row.
pub successes : ℕ → CircuitBreaker → CircuitBreaker
successes zero b = b
successes (suc n) b = successes n (record_success b)

successes-closed : (n : ℕ) (b : CircuitBreaker) → b.state ≡ closed → (successes n b).state ≡ closed
unfolding successes
successes-closed zero b h = h
successes-closed (suc n) b h =
    successes-closed n (record_success b) (unfold record_success in ground arith)

success_in_half_open :
    (b : CircuitBreaker)
    → b.state ≡ half_open
    → ((record_success b).state
        ≡ (if leb b.success_threshold (b.success_count + 1) then closed else half_open))
      × ((record_success b).state ≡ half_open
          → (record_success b).success_count ≡ b.success_count + 1)
      × ((record_success b).success_threshold ≡ b.success_threshold)
unfolding record_success
success_in_half_open b h = ground arith

state-successes :
    (n : ℕ) (b : CircuitBreaker)
    → b.state ≡ half_open
    → b.success_count < b.success_threshold
    → (successes n b).state
      ≡ (if leb b.success_threshold (b.success_count + n) then closed else half_open)
unfolding successes
state-successes zero b h k = ground arith
state-successes (suc n) b h k = ground (
  arith,
  success_in_half_open b h,
  successes-closed n (record_success b),
  state-successes n (record_success b),
)

acquire_cooled :
    (now : ℕ) (b : CircuitBreaker)
    → b.state ≡ opened
    → cooled now b ≡ true
    → ((try_acquire now b).0 ≡ true)
      × ((try_acquire now b).1.state ≡ half_open)
      × ((try_acquire now b).1.success_count ≡ 0)
      × ((try_acquire now b).1.success_threshold ≡ b.success_threshold)
unfolding try_acquire
acquire_cooled now b h k = ground arith

-- An OPEN breaker whose cooldown is over admits the next request, and `n` successes that follow
-- close it exactly when `n` reaches the success threshold; before that it is HALF_OPEN.
pub recovery :
    (now n : ℕ) (b : CircuitBreaker)
    → b.state ≡ opened
    → b.last_failure_time + b.reset_timeout_ms ≤ now
    → 0 < b.success_threshold
    → ((try_acquire now b).0 ≡ true)
      × ((successes n (try_acquire now b).1).state
          ≡ (if leb b.success_threshold n then closed else half_open))
recovery now n b h k pos =
    ground (arith, acquire_cooled now b h (le→leb _ _ k), state-successes n (try_acquire now b).1)
