-- ===== src/Sdk/Retries.antt =====
-- The loop of `requestWithRetry`: which attempt decides, and how many there are.
use apicenter_hehe.Common.{
  ℕ, zero, suc, ◌+◌, ◌≤◌, ◌<◌, ◌≡◌, ◌∙◌, refl, sym, ap, ◌⊎◌, inl, inr, Bool, true, false, not, ◌||◌,
  Option, none, some, arith, Bool-cases, nat_beq,
}
use apicenter_hehe.Sdk.{
  AxiosError, Settled, reply, axios_error, other_error, Outcome, returned, thrown, rethrown,
  is_retryable, wrap_axios_error, attempted, retry_loop, request_with_retry,
}

le_cases : (a b : ℕ) → a ≤ b → (a ≡ b) ⊎ (a + 1 ≤ b)
le_cases a b h = ground arith

module _ {ℓ} {D : Type ℓ} where
  -- An attempt that decides: an answer, an error that is not to be tried again, or the last one.
  abbrev pub decides : Settled D → Bool → Bool
  decides (reply d) final = true
  decides (other_error m) final = true
  decides (axios_error e) final = not (is_retryable e) || final

  -- What the caller gets of the attempt that decides.
  abbrev pub verdict : Settled D → Outcome D
  verdict (reply d) = returned d
  verdict (other_error m) = rethrown m
  verdict (axios_error e) = thrown (wrap_axios_error e)

  attempted-decided :
      (s : Settled D) (final : Bool) (made : ℕ) (next : AxiosError → Outcome D × ℕ)
      → decides s final ≡ true
      → attempted s final made next ≡ (verdict s, made)
  attempted-decided (reply d) final made next h = refl
  attempted-decided (other_error m) final made next h = refl
  attempted-decided (axios_error e) final made next h = rw h refl

  attempted-next :
      (s : Settled D) (final : Bool) (made : ℕ) (next : AxiosError → Outcome D × ℕ)
      → decides s final ≡ false
      → (e : AxiosError) × (attempted s final made next ≡ next e)
  attempted-next (reply d) final made next h = ground arith
  attempted-next (other_error m) final made next h = ground arith
  attempted-next (axios_error e) final made next h = (e, rw h refl)

  decides_final : (s : Settled D) → decides s true ≡ true
  decides_final (reply d) = refl
  decides_final (other_error m) = refl
  decides_final (axios_error e) = ground arith

  module _ (send : ℕ → Settled D) (max_retries : ℕ) where
    abbrev pub decisive : ℕ → Bool
    decisive k = decides (send k) (nat_beq k max_retries)

    -- The first decisive attempt from one on, and what the loop makes of it.
    record Decided (attempt : ℕ) (result : Outcome D × ℕ) : Type ℓ where
      pub by : ℕ
      pub from : attempt ≤ by
      pub within : by ≤ max_retries
      pub deciding : decisive by ≡ true
      pub first : (i : ℕ) → attempt ≤ i → i < by → decisive i ≡ false
      pub outcome : result ≡ (verdict (send by), by + 1)

    Decided-now :
        (left attempt : ℕ) (last : Option AxiosError)
        → attempt ≤ max_retries
        → decisive attempt ≡ true
        → Decided attempt (retry_loop send max_retries (suc left) attempt last)
    unfolding retry_loop
    Decided-now left attempt last low now = record {
      by = attempt;
      from = omega arith;
      within = low;
      deciding = now;
      first = λ i reached before. absurd (omega arith);
      outcome = attempted-decided (send attempt) (nat_beq attempt max_retries) (attempt + 1) _ now;
    }

    last_decides : (attempt : ℕ) → attempt ≡ max_retries → decisive attempt ≡ true
    last_decides attempt same =
        ap (decides (send attempt)) (ground arith) ∙ decides_final (send attempt)

    loop-Decided :
        (left attempt : ℕ) (last : Option AxiosError)
        → attempt + left ≡ max_retries
        → Decided attempt (retry_loop send max_retries (suc left) attempt last)
    unfolding retry_loop
    loop-Decided zero attempt last sum =
        Decided-now zero attempt last (omega arith) (last_decides attempt (omega arith))
    loop-Decided (suc left) attempt last sum = elim (Bool-cases (decisive attempt)) [
      | inl now ↦ Decided-now (suc left) attempt last (omega arith) now
      | inr later ↦
          let (e, on) =
            attempted-next (send attempt) (nat_beq attempt max_retries) (attempt + 1)
              (λ e. retry_loop send max_retries (suc left) (attempt + 1) (some e)) later in
          let rest = loop-Decided left (attempt + 1) (some e) (omega arith) in
          record {
            by = rest.by;
            from = omega (arith, rest.from);
            within = rest.within;
            deciding = rest.deciding;
            first = λ i reached before. elim (le_cases attempt i reached) [
              | inl same ↦ ap decisive (sym same) ∙ later
              | inr above ↦ rest.first i above before
            ];
            outcome = on ∙ rest.outcome;
          }
    ]

    -- The loop of retries ends in a decisive attempt, the first there is: an answer, an error that is
    -- not to be tried again, or the attempt `max_retries`. Every attempt before it failed with an
    -- error that is tried again; the caller gets what that attempt settled to; and one request is
    -- made for each attempt up to it, so at most `max_retries + 1`.
    pub first_decisive :
        (k : ℕ) × (k ≤ max_retries)
        × (decisive k ≡ true)
        × ((i : ℕ) → i < k → decisive i ≡ false)
        × (request_with_retry send max_retries ≡ (verdict (send k), k + 1))
    unfolding request_with_retry
    first_decisive =
        let d = loop-Decided max_retries 0 none (omega arith) in
        (d.by, d.within, d.deciding, λ i before. d.first i (omega arith) before, d.outcome)
