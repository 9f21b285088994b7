-- ===== src/Witnesses/Throttling.antt =====
-- Instances for shared/redis-throttler-storage.ts.
use apicenter_hehe.Common.{ℕ, String, ◌≡◌, ◌≢◌, refl, true, false, some, [], ◌∷◌, arith, All}
use apicenter_hehe.Common.Dict.{lookup}
use apicenter_hehe.Throttler.Evasion.{flood, varied_headers_evade}
use apicenter_hehe.Throttler.{Bucket, Call, MemoryStore}
use apicenter_hehe.Throttler.Window.{calls, window_lets_limit_through}

abbrev blocked : Bucket
blocked = record { hits = 4; expires_at = 1000; blocked_until = 5000 }

abbrev store : MemoryStore
store = ("orders", blocked) ∷ []

abbrev call_at : ℕ → Call
call_at now = record { now = now; ttl = 1000; limit = 3; block_duration = 5000 }

window_lets_limit_through_example :
    calls 1000 2 5000 "orders" (0 ∷ (1 ∷ (5 ∷ (999 ∷ [])))) []
    ≡ false ∷ (false ∷ (true ∷ (true ∷ [])))
unfolding lookup
window_lets_limit_through_example =
    window_lets_limit_through 1000 2 5000 "orders" 0 (1 ∷ (5 ∷ (999 ∷ []))) [] (omega arith)
      (omega arith) refl (omega arith, (omega arith, (omega arith, tt)))

abbrev as_key : String → String
as_key tracker = tracker

abbrev one_allowed : Call
one_allowed = record { now = 1000; ttl = 60000; limit = 1; block_duration = 60000 }

abbrev alpha : String
alpha = "alpha"

abbrev beta : String
beta = "beta"

alpha-full : alpha ≢ ""
alpha-full same = cc same

beta-full : beta ≢ ""
beta-full same = cc same

first-differs : alpha ≢ beta
first-differs same = cc same

varied_headers_evade_example :
    All
      (λ blocked. blocked ≡ false)
      (flood as_key (some "10.0.0.1") ((alpha, one_allowed) ∷ ((beta, one_allowed) ∷ [])) [])
unfolding lookup
varied_headers_evade_example =
    varied_headers_evade as_key (some "10.0.0.1") (λ s t h. h)
      ((alpha, one_allowed) ∷ ((beta, one_allowed) ∷ [])) []
      (alpha-full, omega arith, (first-differs, tt), (beta-full, omega arith, tt, tt))
      (refl, (refl, tt))
