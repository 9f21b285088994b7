-- ===== src/Common/Numbers.antt =====
-- `parseInt(s, 10)`: white space, a sign, and digits up to the first other character. `none` is NaN.
-- White space is that of ASCII.
use Prim.Native.Char.{code}
use Prim.Native.String.{String}
use Prim.Native.Nat.{ℕ, ◌+◌, ◌-◌, ◌*◌}
use mathlib.Core.Bool.{Bool, ◌&&◌, ◌||◌}
use mathlib.Core.Option.{Option, none, some}
use apicenter_hehe.Common.Tests.{leb, nat_beq, if◌then◌else◌}
use apicenter_hehe.Common.Int.{ℤ, pos, negsuc}

abbrev is_digit : ℕ → Bool
is_digit c = leb b'0' c && leb c b'9'

digits_on : ℕ → String → ℕ
digits_on n String.[] = n
digits_on n (String.◌∷◌ c s) =
    let longer = digits_on (n * 10 + (code c - b'0')) s in if is_digit (code c) then longer else n

-- At least one digit.
digits : String → Option ℕ
unfolding digits_on
digits String.[] = none
digits (String.◌∷◌ c s) = if is_digit (code c) then some (digits_on (code c - b'0') s) else none

abbrev positive : Option ℕ → Option ℤ
positive none = none
positive (some n) = some (pos n)

abbrev negated_ℕ : ℕ → ℤ
negated_ℕ n = if nat_beq n 0 then pos 0 else negsuc (n - 1)

abbrev negative : Option ℕ → Option ℤ
negative none = none
negative (some n) = some (negated_ℕ n)

signed : String → Option ℤ
unfolding digits
signed String.[] = none
signed (String.◌∷◌ c s) =
    if nat_beq (code c) b'-'
    then negative (digits s)
    else if nat_beq (code c) b'+'
    then positive (digits s)
    else positive (digits (String.◌∷◌ c s))

unfoldable pub parse_int : String → Option ℤ
unfolding signed
parse_int String.[] = none
parse_int (String.◌∷◌ c s) =
    let later = parse_int s in
    if nat_beq (code c) b' ' || (leb 9 (code c) && leb (code c) 13)
    then later
    else signed (String.◌∷◌ c s)
