-- ===== src/Common/Prefix.antt =====
-- `s.replace(/^p/, '')` for a text p without special characters.
use Prim.Native.Char.{code}
use Prim.Native.String
use Prim.Native.String.{String}
use text.Mathlib.TextLemmas.{cons-append, nil-append}
use mathlib.Core.Path.{◌≡◌, refl}
use mathlib.Core.Option.{Option, none, some}
use native.Mathlib.Omega.{arith}
use apicenter_hehe.Common.Tests.{nat_beq, if◌then◌else◌}
use apicenter_hehe.Common.Truthy.{get_or}

-- What follows the prefix, if the text starts with it.
unfoldable pub after_prefix : String → String → Option String
after_prefix String.[] s = some s
after_prefix (String.◌∷◌ c p) String.[] = none
after_prefix (String.◌∷◌ c p) (String.◌∷◌ d s) =
    let rest = after_prefix p s in if nat_beq (code c) (code d) then rest else none

unfoldable pub without_prefix : String → String → String
unfolding after_prefix
without_prefix p s = get_or (after_prefix p s) s

pub after_prefix-append : (p s : String) → after_prefix p (String.◌++◌ p s) ≡ some s
unfolding after_prefix
after_prefix-append String.[] s = rw nil-append refl
after_prefix-append (String.◌∷◌ c p) s = rw cons-append (ground (arith, after_prefix-append p s))

pub without_prefix-append : (p s : String) → without_prefix p (String.◌++◌ p s) ≡ s
unfolding without_prefix
without_prefix-append p s = rw (after_prefix-append p s) refl
