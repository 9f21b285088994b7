-- ===== src/Witnesses/Outside.antt =====
-- Instances for external/external.service.ts.
use apicenter_hehe.Common.{String, ◌≡◌, refl, some, [], ◌∷◌}
use apicenter_hehe.Common.Dict.{Dict, lookup}
use apicenter_hehe.CircuitBreaker.{CircuitBreaker, resolved, failed, execute}
use apicenter_hehe.External.{ExternalApiConfig, bearer, on_module_init, wrapped, outcome_of}
use apicenter_hehe.External.Calls.{ApiCall, perform, performed, configured_calls_run}

abbrev maps : ExternalApiConfig
maps = record {
  display_name = "Maps";
  base_url = "https://maps.example";
  auth_type = bearer;
  auth_header = "Authorization";
  auth_value = "key";
  timeout = 5000;
}

abbrev apis : Dict ExternalApiConfig
apis = ("maps", maps) ∷ []

abbrev encoded : String → String
encoded s = s

abbrev down : ApiCall String
down = record { name = "maps"; now = 1; settled = failed "timeout"; later = 2 }

abbrev good : ApiCall String
good = record { name = "maps"; now = 3; settled = resolved "{}"; later = 4 }

configured_calls_run_example :
    (b : CircuitBreaker) × (lookup "maps"
        (performed (down ∷ []) (on_module_init encoded apis)).breakers
      ≡ some b)
    × ((perform good (performed (down ∷ []) (on_module_init encoded apis))).0
        ≡ outcome_of b.name (execute 3 (wrapped "maps" (resolved "{}")) 4 b).0)
unfolding lookup
configured_calls_run_example = configured_calls_run encoded apis (down ∷ []) good maps refl
