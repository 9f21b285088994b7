-- ===== src/Sdk/Backoff.antt =====
-- The delays between the attempts of `requestWithRetry` in sdk/TribeClient.ts, in milliseconds.
-- `Math.random()` gives k / 2^53 for a k below 2^53; the products are taken as exact.
use apicenter_hehe.Common.{ℕ, zero, suc, ◌+◌, ◌-◌, ◌*◌, ◌/◌, ◌^◌, ◌≤◌, ◌<◌, ◌≡◌, ap, ◌∙◌, arith}
use native.Mathlib.Nat.{pow-suc}
use apicenter_hehe.Sdk.{Settled, request_with_retry}
use apicenter_hehe.Sdk.Retries.{first_decisive}

-- `base * 0.75 + base * k / 2^54`, rounded to the nearest number, a half up: the jitter is
-- `base * 0.25 * (k / 2^52 - 1)`, which is at least `- base * 0.25`, so the maximum with 0 is
-- the sum.
abbrev pub jittered : ℕ → ℕ → ℕ
jittered base k = (base * 13510798882111488 + base * k + 9007199254740992) / 18014398509481984

-- The delay after the failure of an attempt.
unfoldable pub delay : (retry_base_delay_ms : ℕ) → (random : ℕ) → (attempt : ℕ) → ℕ
delay b k attempt = jittered (b * 2 ^ attempt) k

-- The delays after the first `count` attempts, together.
unfoldable pub waited : ℕ → (ℕ → ℕ) → ℕ → ℕ
unfolding delay
waited b random zero = 0
waited b random (suc n) = waited b random n + delay b (random n) n

random-le : (base k : ℕ) → k < 9007199254740992 → base * k ≤ base * 9007199254740992
random-le zero k small = omega arith
random-le (suc base) k small = omega (arith, random-le base k small)

jittered-bounds :
    (base k : ℕ)
    → k < 9007199254740992
    → (3 * base ≤ 4 * jittered base k + 2) × (4 * jittered base k ≤ 5 * base + 2)
jittered-bounds base k small =
    let most = random-le base k small in (omega (arith, most), omega (arith, most))

product : (b p : ℕ) → b * (p * 2) ≡ 2 * (b * p)
product b p = omega arith

doubled : (b n : ℕ) → b * 2 ^ suc n ≡ 2 * (b * 2 ^ n)
doubled b n = ap (λ p. b * p) (pow-suc 2 n) ∙ product b (2 ^ n)

waited-bounds :
    (b : ℕ) (random : ℕ → ℕ) (n : ℕ)
    → ((i : ℕ) → random i < 9007199254740992)
    → (3 * (b * 2 ^ n) ≤ 4 * waited b random n + 2 * n + 3 * b)
      × (4 * waited b random n + 5 * b ≤ 5 * (b * 2 ^ n) + 2 * n)
unfolding waited delay
waited-bounds b random zero fair = (omega arith, omega arith)
waited-bounds b random (suc n) fair =
    let (low, high) = waited-bounds b random n fair in
    let (low', high') = jittered-bounds (b * 2 ^ n) (random n) (fair n) in
    let twice = doubled b n in (omega (arith, low, low', twice), omega (arith, high, high', twice))

module _ {ℓ} {D : Type ℓ} (send : ℕ → Settled D) (max_retries : ℕ) where
  -- The attempts after the first.
  abbrev pub retries : ℕ
  retries = (request_with_retry send max_retries).1 - 1

  -- A call that makes r retries, whatever the random numbers are, waits between three and five
  -- quarters of `base * (2 ^ r - 1)` milliseconds, and half a millisecond for the rounding of each
  -- delay; and r is at most `max_retries`.
  pub waits_within :
      (retry_base_delay_ms : ℕ) (random : ℕ → ℕ)
      → ((i : ℕ) → random i < 9007199254740992)
      → (retries ≤ max_retries)
        × (3 * (retry_base_delay_ms * 2 ^ retries)
            ≤ 4 * waited retry_base_delay_ms random retries + 2 * retries + 3 * retry_base_delay_ms)
        × (4 * waited retry_base_delay_ms random retries + 5 * retry_base_delay_ms
            ≤ 5 * (retry_base_delay_ms * 2 ^ retries) + 2 * retries)
  waits_within base random fair =
      let (k, within, decisive, first, same) = first_decisive send max_retries in
      let made = ap (λ x. x.1) same in
      let (low, high) = waited-bounds base random retries fair in
      (omega (arith, made, within), low, high)
