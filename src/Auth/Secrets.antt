-- ===== src/Auth/Secrets.antt =====
-- `validateSecret` of registry/registry.service.ts. `process.env` is a parameter, keyed by the code
-- points of a name, and so is SHA-256 as a hexadecimal text.
use Prim.Native.Char.{code}
use mathlib.Core.Path.{ap₂}
use text.Mathlib.TextEquality.{Char-path}
use apicenter_hehe.Common.{
  ℕ, ◌-◌, ◌≤◌, String, ◌≡◌, ◌≢◌, refl, ◌⊎◌, Bool, false, ◌&&◌, Option, none, some, List, ◌++◌, map,
  ◌==◌, arith, leb, nat_beq, if◌then◌else◌, truthy, All,
}
use apicenter_hehe.Registry.Semver.{codes}

-- `toUpperCase` and then `replaceAll('-', '_')` on one character of a service id: a small letter, a
-- digit or a hyphen (`ServiceManifestDto` lets no other through).
key_char : ℕ → ℕ
key_char c = if leb b'a' c && leb c b'z' then c - 32 else if nat_beq c b'-' then b'_' else c

unfoldable pub env_key : String → List ℕ
unfolding key_char
env_key id = codes "TRIBE_SECRET_" ++ map key_char (codes id)

module _ (env : List ℕ → Option String) (sha256_hex : String → String) where
  abbrev expected_is : Option String → String → Bool
  expected_is none hash = false
  expected_is (some expected) hash = truthy expected && hash == expected

  -- The comparison in constant time of two buffers of one length, after the test of the lengths, is
  -- an equality of the texts.
  unfoldable pub validate_secret : String → String → Bool
  unfolding truthy
  validate_secret id secret = expected_is (env (env_key id)) (sha256_hex secret)

-- The characters of a service id.
abbrev pub IsIdCode : ℕ → Type 0
IsIdCode c = ((b'a' ≤ c) × (c ≤ b'z')) ⊎ (((b'0' ≤ c) × (c ≤ b'9')) ⊎ (c ≡ b'-'))

abbrev pub IsServiceId : String → Type 0
IsServiceId id = All IsIdCode (codes id)

key_char_injective : (c d : ℕ) → IsIdCode c → IsIdCode d → key_char c ≡ key_char d → c ≡ d
unfolding key_char
key_char_injective c d hc hd e = ground arith

map_key_injective :
    (s t : String)
    → IsServiceId s
    → IsServiceId t
    → map key_char (codes s) ≡ map key_char (codes t)
    → s ≡ t
map_key_injective String.[] String.[] hs ht e = refl
map_key_injective String.[] (String.◌∷◌ d t) hs ht e = absurd (cc e)
map_key_injective (String.◌∷◌ c s) String.[] hs ht e = absurd (cc e)
map_key_injective (String.◌∷◌ c s) (String.◌∷◌ d t) hs ht e =
    ap₂ String.◌∷◌ (Char-path c d (key_char_injective (code c) (code d) hs.0 ht.0 (cc e)))
      (map_key_injective s t hs.1 ht.1 (cc e))

env_key_injective : (s t : String) → IsServiceId s → IsServiceId t → env_key s ≡ env_key t → s ≡ t
unfolding env_key
env_key_injective s t hs ht e = map_key_injective s t hs ht (cc e)

-- No two services share the variable that holds their secret: different ids of the form that the
-- manifest allows give different names.
pub secrets_apart : (s t : String) → IsServiceId s → IsServiceId t → s ≢ t → env_key s ≢ env_key t
secrets_apart s t hs ht differ same = differ (env_key_injective s t hs ht same)
