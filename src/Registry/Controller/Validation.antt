-- ===== src/Registry/Controller/Validation.antt =====
-- shared/dto/service-manifest.dto.ts: what the decorators demand of the body of a registration. The
-- regular expressions are the code's own; the tests of class-validator on addresses, dates and
-- lengths are parameters. That the fields have their types is taken for granted.
use Prim.Native.Char.{code}
use apicenter_hehe.Common.{
  ℕ, ◌-◌, String, ◌≡◌, ◌≢◌, Bool, true, false, ◌&&◌, ◌||◌, Option, none, some, List, [], ◌∷◌, arith,
  leb, nat_beq, if◌then◌else◌,
}
use apicenter_hehe.Auth.Secrets.{env_key, IsServiceId, secrets_apart}
use apicenter_hehe.Registry.Controller.{ServiceManifestDto, manifest_of}

pub record Validators : Type 0 where
  pub is_not_empty : String → Bool
  pub max_length : ℕ → String → Bool
  pub is_url : String → Bool
  pub is_date_string : String → Bool

abbrev pub is_small : ℕ → Bool
is_small c = leb b'a' c && leb c b'z'

abbrev pub is_digit : ℕ → Bool
is_digit c = leb b'0' c && leb c b'9'

abbrev pub is_id_char : ℕ → Bool
is_id_char c = is_small c || (is_digit c || nat_beq c b'-')

all_id_chars : String → Bool
all_id_chars String.[] = true
all_id_chars (String.◌∷◌ c s) = is_id_char (code c) && all_id_chars s

-- `/^[a-z0-9-]+$/`
unfoldable pub matches_service_id : String → Bool
unfolding all_id_chars
matches_service_id String.[] = false
matches_service_id (String.◌∷◌ c s) = all_id_chars (String.◌∷◌ c s)

-- `/^\d+\.\d+\.\d+/`, with so many more dots to come; `started` is whether the number at hand has a
-- digit already.
version_from : (started : Bool) (dots : ℕ) → String → Bool
version_from started dots String.[] = started && nat_beq dots 0
version_from started dots (String.◌∷◌ c s) =
    let longer = version_from true dots s in
    let next = version_from false (dots - 1) s in
    if started && nat_beq dots 0
    then true
    else if is_digit (code c)
    then longer
    else if started && nat_beq (code c) b'.'
    then next
    else false

unfoldable pub matches_version : String → Bool
unfolding version_from
matches_version s = version_from false 2 s

-- `@IsOptional()` before a test.
abbrev if_given {ℓ} : {A : Type ℓ} → (A → Bool) → Option A → Bool
if_given test none = true
if_given test (some a) = test a

abbrev at_least_one : List String → Bool
at_least_one [] = false
at_least_one (x ∷ xs) = true

module _ (v : Validators) where
  unfoldable pub is_valid : ServiceManifestDto → Bool
  unfolding matches_service_id matches_version
  is_valid dto =
      (v.is_not_empty dto.service_id
        && (v.max_length 64 dto.service_id && matches_service_id dto.service_id))
      && ((v.is_not_empty dto.name && v.max_length 128 dto.name)
          && (v.is_url dto.base_url
              && (at_least_one dto.required_scopes
                  && (at_least_one dto.exposes
                      && (if_given matches_version dto.version
                          && (if_given (v.max_length 500) dto.description
                              && (if_given (v.max_length 256) dto.contact
                                  && (if_given (v.max_length 128) dto.owner_team
                                      && (if_given (v.max_length 64) dto.cost_center
                                          && (if_given v.is_date_string dto.sunset_date
                                              && if_given matches_service_id
                                                  dto.replacement_service))))))))))

all_id_chars-IsServiceId : (s : String) → all_id_chars s ≡ true → IsServiceId s
unfolding all_id_chars
all_id_chars-IsServiceId String.[] h = tt
all_id_chars-IsServiceId (String.◌∷◌ c s) h =
    (ground arith, all_id_chars-IsServiceId s (ground arith))

matches-IsServiceId : (s : String) → matches_service_id s ≡ true → IsServiceId s
unfolding matches_service_id
matches-IsServiceId String.[] h = absurd (cc h)
matches-IsServiceId (String.◌∷◌ c s) h = all_id_chars-IsServiceId (String.◌∷◌ c s) h

valid_id :
    (v : Validators) (dto : ServiceManifestDto)
    → is_valid v dto ≡ true
    → matches_service_id dto.service_id ≡ true
unfolding is_valid
valid_id v dto h = ground arith

-- Two services that the gateway lets register under different ids never share the variable that
-- holds their secret, in spite of the capitals and the underscores in its name.
pub own_secrets :
    (v : Validators) (first second : ServiceManifestDto)
    → is_valid v first ≡ true
    → is_valid v second ≡ true
    → (manifest_of first).service_id ≢ (manifest_of second).service_id
    → env_key (manifest_of first).service_id ≢ env_key (manifest_of second).service_id
unfolding manifest_of
own_secrets v first second valid valid' differ =
    secrets_apart first.service_id second.service_id
      (matches-IsServiceId first.service_id (valid_id v first valid))
      (matches-IsServiceId second.service_id (valid_id v second valid')) differ
