-- ===== src/Sdk/Calls/Token.antt =====
-- What a call of the gateway carries.
use Prim.Native.String
use mathlib.Core.Path.{subst}
use apicenter_hehe.Common.{
  ℕ, ◌+◌, ◌≤◌, ◌<◌, String, ◌≡◌, refl, sym, ap, ◌∙◌, true, false, Option, none, some, arith, get_or,
  Option-cases, inl, inr, truthy, truthy?,
}
use apicenter_hehe.Common.Dict.{Dict, lookup, insert, lookup-insert}
use apicenter_hehe.Sdk.{Settled, Outcome, returned, thrown, rethrown, request_with_retry}
use apicenter_hehe.Sdk.Retries.{first_decisive}
use apicenter_hehe.Sdk.Session.{
  TribeClient, TokenReply, ensure_auth, is_stale, IsLasting, ensured_is_fresh,
}
use apicenter_hehe.Sdk.Calls.{
  AxiosRequestConfig, Method, call_service, call_shared_service, call_external, list_services,
  list_shared_services, bearer, request_of, after_auth, perform,
}

token_there :
    (now expiry : ℕ) (access old : Option String)
    → is_stale now (record { access_token = access; refresh_token = old; token_expiry = expiry })
      ≡ false
    → (t : String) × (access ≡ some t) × (truthy t ≡ true)
unfolding truthy?
token_there now expiry none old fresh = absurd (cc fresh)
token_there now expiry (some t) old fresh = (t, refl, ground arith)

runs_on : (now : ℕ) (c : TribeClient) → is_stale now c ≡ false → now + 30000 < c.token_expiry
unfolding truthy?
runs_on now c fresh = elim (Option-cases c.access_token) [
  | inl gone ↦ ground (arith, gone)
  | inr (t, there) ↦ ground (arith, there)
]

inserted :
    (c : TribeClient) (h : Dict String)
    → lookup "Authorization" (insert "Authorization" (bearer c) h) ≡ some (bearer c)
inserted c h = lookup-insert "Authorization" "Authorization" (bearer c) h

module _ {B : Type 0} where
  authorization-request_of :
      (m : Method B) (c : TribeClient)
      → (h : Dict String) × ((request_of m c).headers ≡ some h)
        × (lookup "Authorization" h ≡ some (bearer c))
  unfolding request_of lookup
  authorization-request_of (call_service id path o) c = (_, refl, inserted c _)
  authorization-request_of (call_shared_service id path o) c = (_, refl, inserted c _)
  authorization-request_of (call_external id path o) c = (_, refl, inserted c _)
  authorization-request_of list_services c = (_, refl, refl)
  authorization-request_of list_shared_services c = (_, refl, refl)

  -- The request carries the token of the client, which is not empty.
  pub record Carries (c : TribeClient) (config : AxiosRequestConfig B) : Type 0 where
    token : String
    headers : Dict String
    has : c.access_token ≡ some token
    full : truthy token ≡ true
    given : config.headers ≡ some headers
    carried : lookup "Authorization" headers ≡ some (String.◌++◌ "Bearer " token)

  request_of-Carries :
      (now : ℕ) (m : Method B) (c : TribeClient)
      → is_stale now c ≡ false
      → Carries c (request_of m c)
  request_of-Carries now m c fresh =
      let (t, has, full) = token_there now c.token_expiry c.access_token c.refresh_token fresh in
      let (h, given, carried) = authorization-request_of m c in
      record {
        token = t;
        headers = h;
        has = has;
        full = full;
        given = given;
        carried = carried ∙ ap (λ o. some (String.◌++◌ "Bearer " (get_or o "null"))) has;
      }

  module _ {D : Type 0} (send : AxiosRequestConfig B → ℕ → Settled D) (max_retries now : ℕ)
      (m : Method B) where
    made_at_most : (f : ℕ → Settled D) → (request_with_retry f max_retries).1 ≤ max_retries + 1
    made_at_most f =
        let (k, within, decisive, first, same) = first_decisive f max_retries in
        let made = ap (λ x. x.1) same in omega (arith, within, made)

    after_auth-sent :
        (x : Outcome (Unit {0}) × TribeClient) (config : AxiosRequestConfig B) (made : ℕ)
        → (x.0 ≡ returned tt → is_stale now x.1 ≡ false)
        → (after_auth send max_retries m x).0.1 ≡ some (config, made)
        → (is_stale now (after_auth send max_retries m x).1 ≡ false)
          × (config ≡ request_of m (after_auth send max_retries m x).1)
          × (made ≤ max_retries + 1)
    after_auth-sent (returned u, c) config made fresh sent =
        let same = ap (λ o. get_or o (config, made)) sent in
        let n = ap (λ x. x.1) same in
        let most = made_at_most (send (request_of m c)) in
        (fresh refl, sym (ap (λ x. x.0) same), omega (arith, n, most))
    after_auth-sent (thrown e, c) config made fresh sent = absurd (cc sent)
    after_auth-sent (rethrown e, c) config made fresh sent = absurd (cc sent)

    -- Where the gateway hands out tokens that last, every request that a method sends is the one of
    -- that method, sent at most `max_retries + 1` times; its header `Authorization` is `Bearer ` and
    -- the token of the client, which is not empty, and the time that the client has for its end is
    -- more than 30000 milliseconds after the time of the call.
    pub calls_carry_token :
        (later : ℕ) (answer again : Settled TokenReply) (c : TribeClient)
        (config : AxiosRequestConfig B) (made : ℕ)
        → now ≤ later
        → IsLasting answer
        → IsLasting again
        → (perform send max_retries now later answer again m c).0.1 ≡ some (config, made)
        → let c' = (perform send max_retries now later answer again m c).1 in
          (config ≡ request_of m c')
          × (made ≤ max_retries + 1)
          × (now + 30000 < c'.token_expiry)
          × Carries c' config
    unfolding perform
    calls_carry_token later answer again c config made order lasting lasting' sent =
        let (fresh, same, most) =
          after_auth-sent (ensure_auth now later answer again c) config made
            (ensured_is_fresh now later answer again c order lasting lasting') sent in
        (
          same,
          most,
          runs_on now (perform send max_retries now later answer again m c).1 fresh,
          subst (Carries _) (sym same) (request_of-Carries now m _ fresh),
        )
