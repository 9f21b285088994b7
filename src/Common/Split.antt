-- ===== src/Common/Split.antt =====
-- `s.split(c)` for one character c, given by its code point.
use Prim.Native.Char.{code}
use Prim.Native.String
use Prim.Native.String.{String}
use text.Mathlib.TextLemmas.{cons-append, nil-append}
use Prim.Native.Nat.{ℕ}
use mathlib.Core.Path.{◌≡◌, refl}
use mathlib.Core.Logic.{◌≢◌}
use mathlib.Core.List.{List, [], ◌∷◌}
use native.Mathlib.Omega.{arith}
use apicenter_hehe.Common.Tests.{nat_beq, if◌then◌else◌}

-- The first part, and the parts after it.
unfoldable pub split_parts : ℕ → String → String × List String
split_parts sep String.[] = (String.[], [])
split_parts sep (String.◌∷◌ c s) =
    let (first, later) = split_parts sep s in
    if nat_beq (code c) sep then (String.[], first ∷ later) else (String.◌∷◌ c first, later)

unfoldable pub split_on : ℕ → String → List String
unfolding split_parts
split_on sep s = let (first, later) = split_parts sep s in first ∷ later

-- The character does not occur.
abbrev pub Without : ℕ → String → Type 0
Without sep String.[] = Unit
Without sep (String.◌∷◌ c s) = (code c ≢ sep) × Without sep s

pub split_parts-alone : (sep : ℕ) (s : String) → Without sep s → split_parts sep s ≡ (s, [])
unfolding split_parts
split_parts-alone sep String.[] h = refl
split_parts-alone sep (String.◌∷◌ c s) (differ, h) = ground (arith, split_parts-alone sep s h)

pub split_parts-joined :
    (s t : String)
    → Without b' ' s
    → split_parts b' ' (String.◌++◌ s (String.◌∷◌ " " t))
      ≡ (s, (split_parts b' ' t).0 ∷ (split_parts b' ' t).1)
unfolding split_parts
split_parts-joined String.[] t h = rw nil-append refl
split_parts-joined (String.◌∷◌ c s) t (differ, h) =
    rw cons-append (ground (arith, split_parts-joined s t h))
