-- ===== src/CircuitBreaker/Guarantees.antt =====
-- What the breaker promises to its callers.
use apicenter_hehe.Common.{
  ℕ, ◌+◌, ◌<◌, ◌≡◌, refl, Bool, true, false, List, [], ◌∷◌, map, All, arith, leb-false_of_lt,
}
use apicenter_hehe.CircuitBreaker.{
  opened, half_open, CircuitBreaker, Settled, resolved, failed, Executed, result, thrown,
  rejected_open, execute, try_acquire, record_success, record_failure,
}

-- Requests that ask one after the other, with what each is told.
pub acquires : List ℕ → CircuitBreaker → List Bool × CircuitBreaker
acquires [] b = ([], b)
acquires (now ∷ ts) b =
    let (admitted, b') = try_acquire now b in
    let (rest, b'') = acquires ts b' in (admitted ∷ rest, b'')

rejected_before :
    (now : ℕ) (b : CircuitBreaker)
    → b.state ≡ opened
    → now < b.last_failure_time + b.reset_timeout_ms
    → try_acquire now b ≡ (false, b)
unfolding try_acquire
rejected_before now b h k = rw (h, leb-false_of_lt _ _ k)

-- While the cooldown of an OPEN breaker lasts, any number of requests are all rejected, and they
-- leave the breaker as it is.
fail_fast :
    (ts : List ℕ) (b : CircuitBreaker)
    → b.state ≡ opened
    → All (λ now. now < b.last_failure_time + b.reset_timeout_ms) ts
    → acquires ts b ≡ (map (λ _. false) ts, b)
unfolding acquires
fail_fast [] b h k = refl
fail_fast (now ∷ ts) b h (k, ks) = rw (rejected_before now b h k, fail_fast ts b h ks)

admitted_half_open :
    (now : ℕ) (b : CircuitBreaker) → b.state ≡ half_open → try_acquire now b ≡ (true, b)
unfolding try_acquire
admitted_half_open now b h = ground arith

-- A HALF_OPEN breaker admits any number of requests, at any times, and does not change: it lets
-- more than one test request through.
half_open_admits_all :
    (ts : List ℕ) (b : CircuitBreaker)
    → b.state ≡ half_open
    → acquires ts b ≡ (map (λ _. true) ts, b)
unfolding acquires
half_open_admits_all [] b h = refl
half_open_admits_all (now ∷ ts) b h = rw (admitted_half_open now b h, half_open_admits_all ts b h)

module _ {ℓ κ} {T : Type ℓ} {E : Type κ} where
  abbrev record_outcome : Bool → Settled T E → ℕ → CircuitBreaker → Executed T E × CircuitBreaker
  record_outcome false s later b = (rejected_open, b)
  record_outcome true (resolved t) later b = (result t, record_success b)
  record_outcome true (failed e) later b = (thrown e, record_failure later b)

  -- The protocol for streaming flows, written out: ask, run the operation only if admitted, record
  -- its outcome.
  pub guarded : ℕ → Settled T E → ℕ → CircuitBreaker → Executed T E × CircuitBreaker
  guarded now s later b =
      let (admitted, b') = try_acquire now b in record_outcome admitted s later b'

  -- `execute` does to the breaker and to its caller what `tryAcquire` followed by `recordSuccess`
  -- or `recordFailure` does.
  pub execute-eq-guarded :
      (now later : ℕ) (s : Settled T E) (b : CircuitBreaker)
      → execute now s later b ≡ guarded now s later b
  unfolding execute guarded try_acquire record_success record_failure
  execute-eq-guarded now later (resolved t) b = ground arith
  execute-eq-guarded now later (failed e) b = ground arith
