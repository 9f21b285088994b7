-- ===== src/Proxy/Cutoff.antt =====
-- The handler of shared/proxy-handler.ts and its circuit breakers: requests to an upstream that fails.
use mathlib.Core.Path.{subst}
use apicenter_hehe.Common.{
  All, ℕ, suc, ◌+◌, ◌≤◌, ◌<◌, String, ◌≡◌, refl, sym, ap, ◌∙◌, inl, inr, Bool, true, none, some,
  List, [], ◌∷◌, arith, leb, if◌then◌else◌, get_or, Bool-cases,
}
use apicenter_hehe.Common.Dict.{lookup}
use apicenter_hehe.Errors.{Result, ok, err}
use apicenter_hehe.CircuitBreaker.{
  CircuitBreaker, create, closed, opened, try_acquire, record_failure,
}
use apicenter_hehe.Proxy.{ProxyHandler, breaker_of, proxy_request, new_breaker}
use apicenter_hehe.Proxy.Exchange.{
  Exchange, IsFailing, hook, settled_by, exchange, forwarded, acquired_if_forwarded, asked_or_not,
  breaker_of-same, lookup-put, breaker_of-found, hook-failing,
}

-- After n failures from `start` on: closed and below the threshold, or open since then.
data Counts (start : ℕ) (n : ℕ) (b : CircuitBreaker) : Type 0 where
  counting :
      b.state ≡ closed
      → b.failure_count ≡ n
      → n < 5
      → b.failure_threshold ≡ 5
      → b.reset_timeout_ms ≡ 30000
      → Counts start n b
  cut :
      b.state ≡ opened
      → n ≡ 5
      → start ≤ b.last_failure_time
      → b.reset_timeout_ms ≡ 30000
      → Counts start n b

module _ (start : ℕ) where
  acquire-Counts :
      (now n : ℕ) (b : CircuitBreaker)
      → now < start + 30000
      → Counts start n b
      → ((try_acquire now b).1 ≡ b) × ((try_acquire now b).0 ≡ true → b.state ≡ closed)
  unfolding try_acquire
  acquire-Counts now n b early (counting is_closed count below threshold timeout) =
      (rw is_closed refl, λ done. is_closed)
  acquire-Counts now n b early (cut is_open all since timeout) = (ground arith, ground arith)

  failure-Counts :
      (later n : ℕ) (b : CircuitBreaker)
      → start ≤ later
      → b.state ≡ closed
      → Counts start n b
      → Counts start (suc n) (record_failure later b)
  unfolding record_failure
  failure-Counts later n b after is_closed (counting _ count below threshold timeout) =
      elim (Bool-cases (leb 5 (suc n))) [
        | inl enough ↦ cut (ground arith) (ground arith) (ground arith) (ground arith)
        | inr few ↦
            counting (ground arith) (ground arith) (ground arith) (ground arith) (ground arith)
      ]
  failure-Counts later n b after is_closed (cut is_open all since timeout) = ground arith

-- A failing answer, to a request that is made and answered within the time.
pub record IsEarly (start : ℕ) (x : Exchange) : Type 0 where
  pub before : x.now < start + 30000
  pub after : start ≤ x.later
  pub fails : IsFailing x.answer

module _ (start : ℕ) (middleware : String → Bool) (id : String) where
  settled_by-Counts :
      (n : ℕ) (x : Exchange) (b : CircuitBreaker) (o : Result String) (h : ProxyHandler)
      → IsEarly start x
      → Counts start n b
      → ((target : String)
          → o ≡ ok target
          → (lookup id h.circuit_breakers ≡ some b) × (b.state ≡ closed))
      → breaker_of id h ≡ b
      → Counts start
          (if (settled_by o x id h).0 then suc n else n)
          (breaker_of id (settled_by o x id h).1)
  settled_by-Counts n x b (err e) h early counts sent kept =
      subst (Counts start n) (sym kept) counts
  settled_by-Counts n x b (ok target) h early counts sent kept =
      let (found, is_closed) = sent target refl in
      let hooked = hook-failing x.answer x.later id b h early.fails found in
      let after = record_failure x.later b in
      let h' = hook x.answer x.later id h in
      subst (Counts start (suc n))
        (sym (breaker_of-found id after h' (lookup-put id after h h' hooked)))
        (failure-Counts start x.later n b early.after is_closed counts)

  exchange-Counts :
      (n : ℕ) (x : Exchange) (h : ProxyHandler)
      → IsEarly start x
      → Counts start n (breaker_of id h)
      → Counts start
          (if (exchange middleware id x h).0 then suc n else n)
          (breaker_of id (exchange middleware id x h).1)
  unfolding exchange
  exchange-Counts n x h early counts =
      let b = breaker_of id h in
      let (response, h') = proxy_request middleware x.now id x.req x.registry h in
      let (unchanged, if_admitted) = acquire-Counts start x.now n b early.before counts in
      settled_by-Counts n x b response.outcome h' early counts
        (λ target done.
          let (put, admitted) =
            acquired_if_forwarded middleware x.now id x.req x.registry h target done in
          (lookup-put id _ h h' put ∙ ap some unchanged, if_admitted admitted))
        (elim (asked_or_not middleware x.now id x.req x.registry h) [
          | inl same ↦ breaker_of-same id h h' same
          | inr put ↦ breaker_of-found id _ h' (lookup-put id _ h h' put) ∙ unchanged
        ])

  forwarded-at_most :
      (n : ℕ) (xs : List Exchange) (h : ProxyHandler)
      → All (IsEarly start) xs
      → Counts start n (breaker_of id h)
      → n + forwarded middleware id xs h ≤ 5
  unfolding forwarded
  forwarded-at_most n [] h early (counting _ count below _ _) = omega arith
  forwarded-at_most n [] h early (cut _ all _ _) = omega arith
  forwarded-at_most n (x ∷ xs) h (early, later) counts =
      let next = exchange-Counts n x h early counts in
      let h' = (exchange middleware id x h).1 in
      elim (Bool-cases (exchange middleware id x h).0) [
        | inl sent ↦
            let rest =
              forwarded-at_most (suc n) xs h' later
                (subst (λ s. Counts start (if s then suc n else n) (breaker_of id h')) sent next) in
            ground arith
        | inr refused ↦
            let rest = forwarded-at_most n xs h' later (
              subst (λ s. Counts start (if s then suc n else n) (breaker_of id h')) refused next) in
            ground arith
      ]

  -- A service whose upstream fails every time is sent at most five requests from its first use by a
  -- handler on, as long as these come before 30 seconds are over since `start`, which is no later
  -- than the first failure; whoever asks, and whatever becomes of the registry between them. Each
  -- answer comes before the next request.
  pub failing_upstream_gets_five :
      (xs : List Exchange) (h : ProxyHandler)
      → lookup id h.circuit_breakers ≡ none
      → All (IsEarly start) xs
      → forwarded middleware id xs h ≤ 5
  unfolding breaker_of new_breaker create
  failing_upstream_gets_five xs h fresh early =
      let closed_at_first =
        subst (λ o. Counts start 0 (get_or o (new_breaker id))) (sym fresh)
          (counting refl refl (omega arith) refl refl) in
      let most = forwarded-at_most 0 xs h early closed_at_first in omega (arith, most)
