-- ===== src/External/Calls.antt =====
-- A call of a configured API always reaches its circuit breaker.
use mathlib.Core.Path.{subst}
use apicenter_hehe.Common.{
  ℕ, String, ◌≡◌, ◌∙◌, refl, sym, ap, ◌⊎◌, inl, inr, some, List, [], ◌∷◌, ◌==◌, arith, eq_iff,
  Option-cases, Bool-cases,
}
use apicenter_hehe.Common.Dict.{Dict, lookup, insert, lookup-insert}
use apicenter_hehe.Errors.{Result}
use apicenter_hehe.CircuitBreaker.{CircuitBreaker, Settled, execute}
use apicenter_hehe.External.{
  ExternalApiConfig, ExternalService, Headers, client_headers, new_breaker, init_client,
  init_clients, on_module_init, wrapped, outcome_of, call,
}

module _ {ℓ} {V : Type ℓ} (k j : String) (v : V) (d : Dict V) where
  inserted_same : k ≡ j → lookup j (insert k v d) ≡ some v
  inserted_same same = lookup-insert k j v d ∙ rw ((eq_iff k j).1 same) refl

  there-insert : (w : V) → lookup j d ≡ some w → (w' : V) × (lookup j (insert k v d) ≡ some w')
  there-insert w there = elim (Bool-cases (k == j)) [
    | inl on ↦ (v, lookup-insert k j v d ∙ rw on refl)
    | inr off ↦ (w, lookup-insert k j v d ∙ rw off there)
  ]

-- A client and a breaker are there for a name.
record IsReady (name : String) (s : ExternalService) : Type 0 where
  headers : Headers
  breaker : CircuitBreaker
  client_there : lookup name s.clients ≡ some headers
  breaker_there : lookup name s.breakers ≡ some breaker

module _ (base64 : String → String) where
  init_client-IsReady :
      (name j : String) (c : ExternalApiConfig) (s : ExternalService)
      → (name ≡ j) ⊎ IsReady j s
      → IsReady j (init_client base64 name c s)
  unfolding init_client
  init_client-IsReady name j c s (inl same) = record {
    headers = _;
    breaker = _;
    client_there = inserted_same name j _ s.clients same;
    breaker_there = inserted_same name j _ s.breakers same;
  }
  init_client-IsReady name j c s (inr ready) =
      let client =
        there-insert name j (client_headers base64 c) s.clients ready.headers ready.client_there in
      let breaker =
        there-insert name j (new_breaker name) s.breakers ready.breaker ready.breaker_there in
      record {
        headers = client.0;
        breaker = breaker.0;
        client_there = client.1;
        breaker_there = breaker.1;
      }

  init_clients-IsReady :
      (cs : Dict ExternalApiConfig) (j : String) (s : ExternalService)
      → ((c : ExternalApiConfig) × (lookup j cs ≡ some c)) ⊎ IsReady j s
      → IsReady j (init_clients base64 cs s)
  unfolding init_clients lookup
  init_clients-IsReady [] j s (inl (c, there)) = absurd (cc there)
  init_clients-IsReady [] j s (inr ready) = ready
  init_clients-IsReady ((name, c') ∷ rest) j s (inl (c, there)) =
      init_clients-IsReady rest j (init_client base64 name c' s) (elim (Bool-cases (name == j)) [
        | inl on ↦ inr (init_client-IsReady name j c' s (inl ((eq_iff name j).0 on)))
        | inr off ↦ inl (c, ground arith)
      ])
  init_clients-IsReady ((name, c') ∷ rest) j s (inr ready) =
      init_clients-IsReady rest j (init_client base64 name c' s)
        (inr (init_client-IsReady name j c' s (inr ready)))

  apis-init_clients :
      (cs : Dict ExternalApiConfig) (s : ExternalService) → (init_clients base64 cs s).apis ≡ s.apis
  unfolding init_clients init_client
  apis-init_clients [] s = refl
  apis-init_clients ((name, c) ∷ rest) s = apis-init_clients rest (init_client base64 name c s)

-- One call: its name, the time, what its request would settle to, and when.
pub record ApiCall {ℓ} (D : Type ℓ) : Type ℓ where
  pub name : String
  pub now : ℕ
  pub settled : Settled D String
  pub later : ℕ

module _ {ℓ} {D : Type ℓ} where
  abbrev pub perform : ApiCall D → ExternalService → Result D × ExternalService
  perform c s = call c.name c.now c.settled c.later s

  pub performed : List (ApiCall D) → ExternalService → ExternalService
  performed [] s = s
  performed (c ∷ cs) s = performed cs (perform c s).1

  -- The call of an API with a breaker does what `execute` does.
  call-execute :
      (c : ApiCall D) (s : ExternalService) (cfg : ExternalApiConfig) (ready : IsReady c.name s)
      → lookup c.name s.apis ≡ some cfg
      → ((perform c s).0
          ≡ outcome_of ready.breaker.name
              (execute c.now (wrapped c.name c.settled) c.later ready.breaker).0)
        × ((perform c s).1 ≡ record s {
          breakers =
              insert c.name
                (execute c.now (wrapped c.name c.settled) c.later ready.breaker).1
                s.breakers;
        })
  unfolding call
  call-execute c s cfg ready configured = (
    rw (configured, ready.client_there, ready.breaker_there) refl,
    rw (configured, ready.client_there, ready.breaker_there) refl,
  )

  -- A call that changes anything changes one breaker, and only of an API that is set up.
  call_cases :
      (c : ApiCall D) (s : ExternalService)
      → ((perform c s).1 ≡ s)
        ⊎ ((b : CircuitBreaker) × ((perform c s).1
              ≡ record s { breakers = insert c.name b s.breakers }))
  unfolding call
  call_cases c s = elim (Option-cases (lookup c.name s.apis)) [
    | inl gone ↦ inl (rw gone refl)
    | inr (cfg, configured) ↦ elim (Option-cases (lookup c.name s.clients)) [
      | inl gone ↦ inl (rw (configured, gone) refl)
      | inr (headers, client) ↦ elim (Option-cases (lookup c.name s.breakers)) [
        | inl gone ↦ inl (rw (configured, client, gone) refl)
        | inr (b, found) ↦ inr (
          (execute c.now (wrapped c.name c.settled) c.later b).1,
          rw (configured, client, found) refl,
        )
      ]
    ]
  ]

  perform-IsReady :
      (c : ApiCall D) (s : ExternalService) (j : String)
      → IsReady j s
      → IsReady j (perform c s).1 × ((perform c s).1.apis ≡ s.apis)
  perform-IsReady c s j ready = elim (call_cases c s) [
    | inl same ↦ (subst (IsReady j) (sym same) ready, ap (λ x. x.apis) same)
    | inr (b, same) ↦
        let found = there-insert c.name j b s.breakers ready.breaker ready.breaker_there in
        (
          subst (IsReady j) (sym same) (record {
            headers = ready.headers;
            breaker = found.0;
            client_there = ready.client_there;
            breaker_there = found.1;
          }),
          ap (λ x. x.apis) same,
        )
  ]

  performed-IsReady :
      (cs : List (ApiCall D)) (s : ExternalService) (j : String)
      → IsReady j s
      → IsReady j (performed cs s) × ((performed cs s).apis ≡ s.apis)
  unfolding performed
  performed-IsReady [] s j ready = (ready, refl)
  performed-IsReady (c ∷ cs) s j ready =
      let (kept, same) = perform-IsReady c s j ready in
      let (kept', same') = performed-IsReady cs (perform c s).1 j kept in (kept', same' ∙ same)

  -- The catalogue stays.
  pub apis-performed :
      (base64 : String → String) (apis : Dict ExternalApiConfig) (cs : List (ApiCall D))
      (name : String) (cfg : ExternalApiConfig)
      → lookup name apis ≡ some cfg
      → (performed cs (on_module_init base64 apis)).apis ≡ apis
  unfolding on_module_init
  apis-performed base64 apis cs name cfg configured =
      let blank : ExternalService = record { apis = apis; clients = []; breakers = [] } in
      let start = init_clients-IsReady base64 apis name blank (inl (cfg, configured)) in
      (performed-IsReady cs (init_clients base64 apis blank) name start).1
      ∙ apis-init_clients base64 apis blank

  -- After the service has set up its clients, and after any calls, a call of an API that is
  -- configured reaches a circuit breaker and answers what the breaker's `execute` makes of the
  -- request: it is never refused as unconfigured or uninitialised, and never meets a breaker that is
  -- missing.
  pub configured_calls_run :
      (base64 : String → String) (apis : Dict ExternalApiConfig) (cs : List (ApiCall D))
      (c : ApiCall D) (cfg : ExternalApiConfig)
      → lookup c.name apis ≡ some cfg
      → (b : CircuitBreaker) × (lookup c.name (performed cs (on_module_init base64 apis)).breakers
          ≡ some b)
        × ((perform c (performed cs (on_module_init base64 apis))).0
            ≡ outcome_of b.name (execute c.now (wrapped c.name c.settled) c.later b).0)
  unfolding on_module_init
  configured_calls_run base64 apis cs c cfg configured =
      let blank : ExternalService = record { apis = apis; clients = []; breakers = [] } in
      let start = init_clients-IsReady base64 apis c.name blank (inl (cfg, configured)) in
      let (ready, same) = performed-IsReady cs (init_clients base64 apis blank) c.name start in
      let found = ap (lookup c.name) (same ∙ apis-init_clients base64 apis blank) ∙ configured in
      (
        ready.breaker,
        ready.breaker_there,
        (call-execute c (performed cs (init_clients base64 apis blank)) cfg ready found).0,
      )
