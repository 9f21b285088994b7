-- ===== src/Sdk/Session.antt =====
-- The session of sdk/TribeClient.ts: `authenticate`, `refresh` and `ensureAuth`. `now` is the time of
-- the test and `later` the time at which a reply is stored, in milliseconds.
use mathlib.Core.Path.{subst}
use apicenter_hehe.Common.{
  ℕ, ◌+◌, ◌*◌, ◌≤◌, ◌<◌, String, ◌≡◌, refl, sym, ◌⊎◌, Bool, true, false, not, ◌||◌, Option, none,
  some, arith, leb, if◌then◌else◌, get_or, truthy, truthy?, inl, inr, Bool-cases,
}
use apicenter_hehe.Sdk.{
  Settled, reply, axios_error, other_error, Outcome, returned, thrown, rethrown, wrap_axios_error,
}

pub record TribeClient : Type 0 where
  pub access_token : Option String
  pub refresh_token : Option String
  pub token_expiry : ℕ

-- The field `data` of the gateway's reply.
pub record TokenReply : Type 0 where
  pub access_token : String
  pub refresh_token : Option String
  pub expires_in : Option ℕ

-- `(data.expiresIn ?? 3_600) * 1_000`
abbrev pub lifetime : TokenReply → ℕ
lifetime d = get_or d.expires_in 3600 * 1000

-- A reply to `authenticate` without a refresh token drops the one there was.
unfoldable pub authenticate :
    ℕ → Settled TokenReply → TribeClient → Outcome (Unit {0}) × TribeClient
authenticate later (reply d) c = (
  returned tt,
  record {
    access_token = some d.access_token;
    refresh_token = d.refresh_token;
    token_expiry = later + lifetime d;
  },
)
authenticate later (axios_error e) c = (thrown (wrap_axios_error e), c)
authenticate later (other_error m) c = (rethrown m, c)

abbrev kept_token : Option String → Option String → Option String
kept_token none old = old
kept_token (some new) old = some new

-- With a refresh token: any error, of whatever kind, falls back to `authenticate`, whose reply is
-- `again`.
abbrev refreshed :
    ℕ → Settled TokenReply → Settled TokenReply → TribeClient → Outcome (Unit {0}) × TribeClient
refreshed later (reply d) again c = (
  returned tt,
  record {
    access_token = some d.access_token;
    refresh_token = kept_token d.refresh_token c.refresh_token;
    token_expiry = later + lifetime d;
  },
)
refreshed later (axios_error e) again c = authenticate later again c
refreshed later (other_error m) again c = authenticate later again c

unfoldable pub refresh :
    ℕ → Settled TokenReply → Settled TokenReply → TribeClient → Outcome (Unit {0}) × TribeClient
unfolding authenticate truthy?
refresh later answer again c =
    if truthy? c.refresh_token then refreshed later answer again c else authenticate later again c

-- `!this.accessToken || Date.now() >= this.tokenExpiry - 30_000`
abbrev pub is_stale : ℕ → TribeClient → Bool
is_stale now c = not (truthy? c.access_token) || leb c.token_expiry (now + 30000)

-- `answer` is the reply to a refresh and `again` the reply to `authenticate`, where they are asked.
unfoldable pub ensure_auth :
    ℕ → ℕ → Settled TokenReply → Settled TokenReply → TribeClient → Outcome (Unit {0}) × TribeClient
unfolding refresh authenticate truthy?
ensure_auth now later answer again c =
    if is_stale now c
    then (if truthy? c.refresh_token
        then refresh later answer again c
        else authenticate later again c)
    else (returned tt, c)

-- A reply whose token is not empty and lives longer than the margin of 30 seconds.
abbrev pub IsLasting : Settled TokenReply → Type 0
IsLasting (reply d) = (truthy d.access_token ≡ true) × (30000 < lifetime d)
IsLasting _ = Unit

authenticate-fresh :
    (now later : ℕ) (again : Settled TokenReply) (c : TribeClient)
    → now ≤ later
    → IsLasting again
    → (authenticate later again c).0 ≡ returned tt
    → is_stale now (authenticate later again c).1 ≡ false
unfolding authenticate truthy?
authenticate-fresh now later (reply d) c order lasting done = ground arith
authenticate-fresh now later (axios_error e) c order lasting done = ground arith
authenticate-fresh now later (other_error m) c order lasting done = ground arith

refreshed-fresh :
    (now later : ℕ) (answer again : Settled TokenReply) (c : TribeClient)
    → now ≤ later
    → IsLasting answer
    → IsLasting again
    → (refreshed later answer again c).0 ≡ returned tt
    → is_stale now (refreshed later answer again c).1 ≡ false
unfolding truthy?
refreshed-fresh now later (reply d) again c order lasting lasting' done = ground arith
refreshed-fresh now later (axios_error e) again c order lasting lasting' done =
    authenticate-fresh now later again c order lasting' done
refreshed-fresh now later (other_error m) again c order lasting lasting' done =
    authenticate-fresh now later again c order lasting' done

-- Which of the three `ensureAuth` does.
ensure_auth-cases :
    (now later : ℕ) (answer again : Settled TokenReply) (c : TribeClient)
    → ((ensure_auth now later answer again c ≡ (returned tt, c)) × (is_stale now c ≡ false))
      ⊎ ((ensure_auth now later answer again c ≡ refreshed later answer again c)
          ⊎ (ensure_auth now later answer again c ≡ authenticate later again c))
unfolding ensure_auth
ensure_auth-cases now later answer again c = elim (Bool-cases (is_stale now c)) [
  | inl stale ↦ elim (Bool-cases (truthy? c.refresh_token)) [
    | inl has ↦ inr (inl (rw (stale, has) refl))
    | inr lacks ↦ inr (inr (rw (stale, lacks) refl))
  ]
  | inr fresh ↦ inl (rw fresh refl, fresh)
]

-- Where the gateway hands out tokens that last, `ensureAuth` either throws or leaves the client with
-- a token that is there and runs for more than 30 seconds after the time of the call.
pub ensured_is_fresh :
    (now later : ℕ) (answer again : Settled TokenReply) (c : TribeClient)
    → now ≤ later
    → IsLasting answer
    → IsLasting again
    → (ensure_auth now later answer again c).0 ≡ returned tt
    → is_stale now (ensure_auth now later answer again c).1 ≡ false
ensured_is_fresh now later answer again c order lasting lasting' =
    elim (ensure_auth-cases now later answer again c) [
      | inl (same, fresh) ↦ subst Fresh (sym same) (λ done. fresh)
      | inr (inl same) ↦
          subst Fresh (sym same) (refreshed-fresh now later answer again c order lasting lasting')
      | inr (inr same) ↦
          subst Fresh (sym same) (authenticate-fresh now later again c order lasting')
    ]
  where
    Fresh : Outcome (Unit {0}) × TribeClient → Type 0
    Fresh x = x.0 ≡ returned tt → is_stale now x.1 ≡ false
