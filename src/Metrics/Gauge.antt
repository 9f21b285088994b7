-- ===== src/Metrics/Gauge.antt =====
-- The gauge of a circuit breaker against the breaker itself.
use apicenter_hehe.Common.{
  ℕ, String, ◌≡◌, ◌↔◌, refl, ap, ◌∙◌, none, some, List, [], ◌∷◌, arith, eq_refl, get_or,
}
use apicenter_hehe.Common.Dict.{Dict, lookup, insert, lookup-insert}
use apicenter_hehe.CircuitBreaker.{
  CircuitState, closed, opened, half_open, state_text, Transition, CircuitBreakerOptions, create,
}
use apicenter_hehe.CircuitBreaker.Schedule.{Event, run}
use apicenter_hehe.CircuitBreaker.Transitions.{Leads, run-Leads}
use apicenter_hehe.Metrics.{MetricsService, set_circuit_breaker_state, state_value}

module _ (name : String) where
  -- The calls of `onStateChange` in external/external.service.ts, newest first, on the metrics.
  unfoldable pub report : List Transition → MetricsService → MetricsService
  unfolding set_circuit_breaker_state
  report [] m = m
  report (t ∷ ts) m = set_circuit_breaker_state name (state_text t.to) (report ts m)

  -- What a dashboard reads: a gauge that was never set counts as 0.
  abbrev pub shown : MetricsService → ℕ
  shown m = get_or (lookup name m.circuit_breaker_state) 0

  set_at_name :
      (gauge : Dict ℕ) (state : String)
      → lookup name (insert name (state_value state) gauge) ≡ some (state_value state)
  set_at_name gauge state =
      lookup-insert name name (state_value state) gauge ∙ rw (eq_refl name) refl

  shown-report :
      (ts : List Transition) (s : CircuitState) (m : MetricsService)
      → lookup name m.circuit_breaker_state ≡ none
      → Leads ts s
      → shown (report ts m) ≡ state_value (state_text s)
  unfolding report set_circuit_breaker_state
  shown-report [] s m fresh lead = rw (fresh, lead) refl
  shown-report (t ∷ ts) s m fresh (ends, before) =
      ap (λ o. get_or o 0) (set_at_name (report ts m).circuit_breaker_state (state_text t.to))
      ∙ ap (λ s. state_value (state_text s)) ends

  values_apart :
      (s : CircuitState)
      → ((state_value (state_text s) ≡ 1) ↔ (s ≡ opened))
        × ((state_value (state_text s) ≡ 2) ↔ (s ≡ half_open))
        × ((state_value (state_text s) ≡ 0) ↔ (s ≡ closed))
  values_apart closed = ground arith
  values_apart opened = ground arith
  values_apart half_open = ground arith

  -- Whatever happens to a new breaker, its gauge tells its state: 1 exactly when it is OPEN, 2
  -- exactly when it is HALF_OPEN, 0 exactly when it is CLOSED.
  pub gauge_shows_state :
      (options : CircuitBreakerOptions) (es : List Event) (m : MetricsService)
      → lookup name m.circuit_breaker_state ≡ none
      → let b = run es (create name options) in
        ((shown (report b.notified m) ≡ 1) ↔ (b.state ≡ opened))
        × ((shown (report b.notified m) ≡ 2) ↔ (b.state ≡ half_open))
        × ((shown (report b.notified m) ≡ 0) ↔ (b.state ≡ closed))
  gauge_shows_state options es m fresh =
      let b = run es (create name options) in
      rw (shown-report b.notified b.state m fresh (run-Leads name options es))
        (values_apart b.state)
