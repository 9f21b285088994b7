-- ===== src/Auth/DevJwt/Tokens.antt =====
-- The life of a token: from issue to validation, to refresh, and to expiry.
use apicenter_hehe.Common.{
  ℕ, ◌+◌, ◌*◌, ◌≤◌, ◌<◌, String, ◌≡◌, refl, ◌⊎◌, inl, inr, not, ap, filter, ◌∷◌, some, List, [],
  includes, arith,
}
use apicenter_hehe.Errors.{Error, ok, err, plain}
use apicenter_hehe.Auth.Service.{JwtClaims, merge_caller_scopes, check_scopes}
use apicenter_hehe.Auth.Issuance.{IssuedToken}
use apicenter_hehe.Auth.DevJwt.{
  Jose, IsFaithful, DevJwtConfig, ttl_of, Payload, access_payload, refresh_payload, validate_token,
  issue_token, refresh_token, claims_of_payload,
}

lt_or_le : (m n : ℕ) → (m < n) ⊎ (n ≤ m)
lt_or_le m n = omega arith

all_missing : (xs : List String) → filter (λ s. not (includes [] s)) xs ≡ xs
unfolding filter includes
all_missing [] = refl
all_missing (x ∷ xs) = ap (◌∷◌ x) (all_missing xs)

nothing_held :
    (c : JwtClaims) (required : List String)
    → c.permissions ≡ some []
    → c.scopes ≡ some []
    → check_scopes (some c) required ≡ required
unfolding check_scopes merge_caller_scopes
nothing_held c required p s = rw (p, s) (all_missing required)

-- The claims that an access token is read back to.
abbrev pub issued_claims : DevJwtConfig → ℕ → String → List String → List String → JwtClaims
issued_claims config now id permissions scopes = record {
  sub = id;
  tribe_id = some id;
  permissions = some permissions;
  scopes = some scopes;
  exp = some (now + ttl_of config);
}

module _ (jose : Jose) (config : DevJwtConfig) where
  abbrev pub Faithful : Payload → ℕ → Type 0
  Faithful p expires = IsFaithful jose config.issuer p expires

  validated :
      (p : Payload) (now : ℕ)
      → jose.verify now config.issuer (jose.sign p) ≡ ok p
      → validate_token jose config now (jose.sign p) ≡ ok (claims_of_payload p)
  unfolding validate_token
  validated p now h = rw h

  -- What is issued is read back: an access token is validated to exactly the service, the
  -- permissions and the scopes that it was issued with, until `expires_in` seconds have passed, and
  -- is refused from then on.
  pub validate_token-issue_token :
      (now later : ℕ) (id : String) (permissions scopes : List String)
      → Faithful (access_payload config now id permissions scopes) (now + ttl_of config)
      → let t = issue_token jose config now id permissions scopes in
        (later < now + t.expires_in
          → validate_token jose config later t.access_token
            ≡ ok (issued_claims config now id permissions scopes))
        × (now + t.expires_in ≤ later
            → (e : Error) × (validate_token jose config later t.access_token ≡ err e))
  unfolding issue_token access_payload claims_of_payload validate_token
  validate_token-issue_token now later id permissions scopes law = (
    λ valid. validated _ later (law.accepted later valid),
    λ over. let (e, thrown) = law.expired later over in (e, rw thrown),
  )

  -- The claims of a refresh token, read as if it were an access token.
  abbrev pub bare_claims : ℕ → String → ℕ → JwtClaims
  bare_claims now id lifetime = record {
    sub = id;
    tribe_id = some id;
    permissions = some [];
    scopes = some [];
    exp = some (now + lifetime);
  }

  abbrev refresh_lifetime : ℕ
  refresh_lifetime = ttl_of config * config.refresh_ttl_multiplier

  refreshed :
      (now later : ℕ) (id : String)
      → Faithful (refresh_payload config now id) (now + refresh_lifetime)
      → later < now + refresh_lifetime
      → refresh_token jose config later (jose.sign (refresh_payload config now id))
        ≡ ok (issue_token jose config later id [] [])
  unfolding refresh_token refresh_payload
  refreshed now later id law valid = rw (law.accepted later valid)

  -- A refresh token gives new tokens for the same service while it lasts, but with nothing in them:
  -- the access token that comes out of a refresh has no permissions and no scopes, whatever the
  -- first one had, so that every scope that a target requires is reported as missing.
  pub refresh_loses_scopes :
      (now later at : ℕ) (id : String) (permissions scopes required : List String)
      → Faithful (refresh_payload config now id) (now + refresh_lifetime)
      → Faithful (access_payload config later id [] []) (later + ttl_of config)
      → later < now + refresh_lifetime
      → at < later + ttl_of config
      → (t : String) × (new : IssuedToken) × (claims : JwtClaims) × ((issue_token jose config now id
            permissions scopes).refresh_token
          ≡ some t)
        × (refresh_token jose config later t ≡ ok new)
        × (validate_token jose config at new.access_token ≡ ok claims)
        × (claims.tribe_id ≡ some id)
        × (check_scopes (some claims) required ≡ required)
  unfolding issue_token
  refresh_loses_scopes now later at id permissions scopes required law law' valid valid' = (
    jose.sign (refresh_payload config now id),
    issue_token jose config later id [] [],
    issued_claims config later id [] [],
    refl,
    refreshed now later id law valid,
    (validate_token-issue_token later at id [] [] law').0 valid',
    refl,
    nothing_held (issued_claims config later id [] []) required refl refl,
  )

  -- The code never looks at the type of a token that is presented for access: a refresh token
  -- passes for one, and for longer than the access token it came with.
  pub refresh_token_gives_access :
      (now later : ℕ) (id : String) (permissions scopes : List String)
      → Faithful (refresh_payload config now id) (now + refresh_lifetime)
      → later < now + refresh_lifetime
      → (t : String) × ((issue_token jose config now id permissions scopes).refresh_token ≡ some t)
        × (validate_token jose config later t ≡ ok (bare_claims now id refresh_lifetime))
  unfolding issue_token refresh_payload claims_of_payload validate_token
  refresh_token_gives_access now later id permissions scopes law valid =
      (_, refl, validated _ later (law.accepted later valid))

  -- The other way round is closed: no access token can be refreshed, at any time.
  pub access_token_is_no_refresh :
      (now later : ℕ) (id : String) (permissions scopes : List String)
      → Faithful (access_payload config now id permissions scopes) (now + ttl_of config)
      → (e : Error) × (refresh_token jose config later
            (issue_token jose config now id permissions scopes).access_token
          ≡ err e)
  unfolding refresh_token issue_token access_payload
  access_token_is_no_refresh now later id permissions scopes law =
      elim (lt_or_le later (now + ttl_of config)) [
        | inl valid ↦ (plain "Provided token is not a refresh token", rw (law.accepted later valid))
        | inr over ↦ let (e, thrown) = law.expired later over in (e, rw thrown)
      ]
