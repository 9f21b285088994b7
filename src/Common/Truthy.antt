-- ===== src/Common/Truthy.antt =====
-- What JavaScript takes for true: a text that is there and not empty.
use Prim.Native.String.{String}
use mathlib.Core.Bool.{Bool, false, not}
use mathlib.Core.Option.{Option, none, some}
use text.Mathlib.Text.{◌==◌}
use apicenter_hehe.Common.Tests.{if◌then◌else◌}

unfoldable pub truthy : String → Bool
truthy s = not (s == "")

unfoldable pub truthy? : Option String → Bool
unfolding truthy
truthy? none = false
truthy? (some s) = truthy s

-- `o ?? d`
abbrev pub get_or {ℓ} : {A : Type ℓ} → Option A → A → A
get_or none d = d
get_or (some a) d = a

-- `o || d` on texts
unfoldable pub or_else : Option String → String → String
unfolding truthy
or_else none d = d
or_else (some s) d = if truthy s then s else d
