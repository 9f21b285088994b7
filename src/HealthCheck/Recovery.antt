-- ===== src/HealthCheck/Recovery.antt =====
-- When the gateway is ready, and how an administrator makes it so.
use apicenter_hehe.Common.{
  String, ◌≡◌, ◌≢◌, ◌↔◌, refl, ap, true, ◌==◌, some, List, [], ◌∷◌, map, arith, eq_iff, eq_refl,
  inl, inr, Bool-cases, if◌then◌else◌, filter, length,
}
use apicenter_hehe.Common.Dict.{
  Dict, lookup, insert, values, lookup-insert, Distinct, Distinct-insert,
}
use apicenter_hehe.Errors.{ok}
use apicenter_hehe.CircuitBreaker.{
  CircuitState, closed, opened, half_open, state_text, Stats, CircuitBreaker, get_stats, reset,
}
use apicenter_hehe.External.{ExternalService, get_all_breaker_stats, get_breaker}
use apicenter_hehe.Kafka.{KafkaService, is_connected}
use apicenter_hehe.Registry.State.{RegistryService}
use apicenter_hehe.HealthCheck.{
  up, is_open, circuit_breaker_check, kafka_check, registry_check, readiness, reset_breaker,
}

-- Every breaker that can be looked up is not OPEN.
abbrev pub NoneOpen : Dict CircuitBreaker → Type 0
NoneOpen d = (name : String) (b : CircuitBreaker) → lookup name d ≡ some b → b.state ≢ opened

open_iff : (b : CircuitBreaker) → (is_open (get_stats b) ≡ true) ↔ (b.state ≡ opened)
unfolding get_stats
open_iff b = is_opened b.state
  where
    is_opened : (s : CircuitState) → ((state_text s == "OPEN") ≡ true) ↔ (s ≡ opened)
    is_opened closed = ground arith
    is_opened opened = ground arith
    is_opened half_open = ground arith

abbrev open_in : Dict CircuitBreaker → List Stats
open_in d = filter is_open (map get_stats (values d))

NoneOpen-of_count : (d : Dict CircuitBreaker) → length (open_in d) ≡ 0 → NoneOpen d
unfolding values filter lookup
NoneOpen-of_count [] empty name b there = absurd (cc there)
NoneOpen-of_count ((key, c) ∷ d) empty name b there = elim (Bool-cases (is_open (get_stats c))) [
  | inl bad ↦ absurd (ground arith)
  | inr shut ↦
      let later = NoneOpen-of_count d (ground arith) name b in
      elim (Bool-cases (key == name)) [
        | inl here ↦ λ is_opened. absurd (ground (arith, open_iff c))
        | inr elsewhere ↦ later (ground arith)
      ]
]

count-of_NoneOpen : (d : Dict CircuitBreaker) → Distinct d → NoneOpen d → length (open_in d) ≡ 0
unfolding values filter lookup
count-of_NoneOpen [] once none_open = refl
count-of_NoneOpen ((key, c) ∷ d) (absent, once) none_open =
    let head = none_open key c (rw (eq_refl key) refl) in
    let tail =
      count-of_NoneOpen d once
        (λ name b there. none_open name b (ground (arith, eq_iff key name))) in
    ground (arith, open_iff c)

-- The gateway is ready exactly while Kafka is connected and no circuit breaker is OPEN; the registry
-- never stands in the way.
pub ready_iff :
    (k : KafkaService) (r : RegistryService) (s : ExternalService)
    → Distinct s.breakers
    → (readiness k r s ≡ up) ↔ ((k.connected ≡ true) × NoneOpen s.breakers)
unfolding readiness kafka_check is_connected registry_check circuit_breaker_check
    get_all_breaker_stats
ready_iff k r s once =
    ground (arith, NoneOpen-of_count s.breakers, count-of_NoneOpen s.breakers once)

module _ (name : String) (s : ExternalService) (b : CircuitBreaker)
    (there : lookup name s.breakers ≡ some b) where
  reset_closes : (reset b).state ≡ closed
  unfolding reset
  reset_closes = ground arith

  NoneOpen-after :
      ((j : String) (c : CircuitBreaker)
        → lookup j s.breakers ≡ some c
        → name ≢ j
        → c.state ≢ opened)
      → NoneOpen (insert name (reset b) s.breakers)
  NoneOpen-after others j c found = elim (Bool-cases (name == j)) [
    | inl on ↦
        λ bad. absurd (ground (arith, lookup-insert name j (reset b) s.breakers, reset_closes))
    | inr off ↦
        others j c (ground (arith, lookup-insert name j (reset b) s.breakers))
          (ground (arith, eq_iff name j))
  ]

  -- A reset by the administrator closes that breaker, answers with the state before and with CLOSED,
  -- and touches no other; so where no other breaker is OPEN and Kafka is connected, it makes the
  -- gateway ready again.
  pub reset_makes_ready :
      (k : KafkaService) (r : RegistryService)
      → Distinct s.breakers
      → k.connected ≡ true
      → ((j : String) (c : CircuitBreaker)
          → lookup j s.breakers ≡ some c
          → name ≢ j
          → c.state ≢ opened)
      → ((reset_breaker name s).0
          ≡ ok (record { api_name = name; previous_state = b.state; current_state = closed }))
        × ((j : String)
            → lookup j (reset_breaker name s).1.breakers
              ≡ (if name == j then some (reset b) else lookup j s.breakers))
        × (readiness k r (reset_breaker name s).1 ≡ up)
  unfolding reset_breaker get_breaker
  reset_makes_ready k r once connected others = rw there (
    ap (λ state. ok (record { api_name = name; previous_state = b.state; current_state = state }))
        reset_closes,
    λ j. lookup-insert name j (reset b) s.breakers,
    (ready_iff k r (record s { breakers = insert name (reset b) s.breakers })
          (Distinct-insert name (reset b) s.breakers once)).1
        (connected, NoneOpen-after others),
  )
