-- ===== src/Registry/Semver.antt =====
-- `validateVersionUpgrade` of registry/registry.service.ts. A text is read by its code points; a
-- version number is exact (a JavaScript number is so below 2^53).
use Prim.Native.Char.{code}
use Prim.Native.String
use apicenter_hehe.Common.{
  ℕ, ◌+◌, ◌-◌, ◌*◌, ◌≤◌, ◌<◌, String, ◌≡◌, refl, Bool, true, ◌&&◌, ◌==◌, eq_iff, Bool-cases, inl,
  inr, lt→ltb, truthy, Option, none, some, List, [], ◌∷◌, arith, leb, ltb, nat_beq, if◌then◌else◌,
}
use apicenter_hehe.Errors.{app, validation, Result, ok, err}

abbrev pub codes : String → List ℕ
codes String.[] = []
codes (String.◌∷◌ c s) = code c ∷ codes s

pub record Semver : Type 0 where
  pub major : ℕ
  pub minor : ℕ
  pub patch : ℕ

-- `\d`
abbrev is_digit : ℕ → Bool
is_digit c = leb b'0' c && leb c b'9'

-- The digits of `\d+` after the first, read into a number, and what is left.
more_digits : ℕ → List ℕ → ℕ × List ℕ
more_digits n [] = (n, [])
more_digits n (c ∷ cs) =
    let rest = more_digits (n * 10 + (c - b'0')) cs in if is_digit c then rest else (n, c ∷ cs)

-- `(\d+)`; no digit can follow in the pattern, so it takes all that are there.
digits : List ℕ → Option (ℕ × List ℕ)
digits [] = none
digits (c ∷ cs) = if is_digit c then some (more_digits (c - b'0') cs) else none

-- `\.`
dot : List ℕ → Option (List ℕ)
dot [] = none
dot (c ∷ cs) = if nat_beq c b'.' then some cs else none

infixl 5 ◌>>=◌
abbrev ◌>>=◌ : {A B : Type 0} → Option A → (A → Option B) → Option B
none >>= f = none
some a >>= f = f a

-- `/^(\d+)\.(\d+)\.(\d+)/`; what follows the third number is not looked at.
unfoldable pub parse_semver : String → Option Semver
unfolding digits dot more_digits
parse_semver v = do
  m ← digits (codes v)
  r ← dot m.1
  n ← digits r
  s ← dot n.1
  p ← digits s
  some (record { major = m.0; minor = n.0; patch = p.0 })

abbrev pub downgrade_message : String → String → String
downgrade_message current new = String.◌++◌ "Version downgrade from " (
    String.◌++◌ current (
      String.◌++◌ " to " (
        String.◌++◌ new
          " is not allowed. Deregister the service first if you need to roll back a major version.")))

abbrev compare_major : Option Semver → Option Semver → String → String → Result (Unit {0})
compare_major (some current) (some next) c n =
    if ltb next.major current.major then err (app (validation (downgrade_message c n))) else ok tt
compare_major _ _ c n = ok tt

unfoldable pub validate_version_upgrade : String → String → Result (Unit {0})
validate_version_upgrade current new =
    compare_major (parse_semver current) (parse_semver new) current new

parse_tests :
    (parse_semver "12.0.3-beta" ≡ some (record { major = 12; minor = 0; patch = 3 }))
    × (parse_semver "1.2" ≡ none)
    × (parse_semver "v1.2.3" ≡ none)
unfolding parse_semver
parse_tests = (refl, refl, refl)

-- A new version that is let through, where both read as semver, has no smaller major number.
pub major-le_of_ok :
    (current new : String) (c n : Semver)
    → validate_version_upgrade current new ≡ ok tt
    → parse_semver current ≡ some c
    → parse_semver new ≡ some n
    → c.major ≤ n.major
unfolding validate_version_upgrade
major-le_of_ok current new c n h pc pn = ground arith

-- A text that reads as semver is not empty.
pub truthy_of_parse : (v : String) (s : Semver) → parse_semver v ≡ some s → truthy v ≡ true
unfolding truthy
truthy_of_parse v s h = elim (Bool-cases (v == "")) [
  | inl e ↦
      let gone : parse_semver "" ≡ some s = rw (← (eq_iff v "").0 e) h in
      unfold parse_semver in cc gone
  | inr e ↦ rw e
]

pub err_of_major-lt :
    (current new : String) (c n : Semver)
    → parse_semver current ≡ some c
    → parse_semver new ≡ some n
    → n.major < c.major
    → validate_version_upgrade current new ≡ err (app (validation (downgrade_message current new)))
unfolding validate_version_upgrade
err_of_major-lt current new c n pc pn h = rw (pc, pn, lt→ltb _ _ h)
