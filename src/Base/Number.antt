-- ===== src/Base/Number.antt =====
-- strconv.ParseUint and strconv.Atoi, over the code points of a text.
use Prim.Native.Nat.{ℕ, zero, suc, ◌/◌, ◌%◌, ◌+◌, ◌-◌, ◌*◌, ◌^◌, ◌<◌}
use mathlib.Core.Path.{◌≡◌}
use mathlib.Core.Bool.{◌&&◌}
use mathlib.Core.Option.{Option, none, some}
use mathlib.Core.List.{List, [], ◌∷◌}
use native.Mathlib.Omega.{arith}
use sophons.Base.Tests.{leb, ltb, ◌==◌, if◌then◌else◌}
use sophons.Base.Int.{ℤ, pos, negsuc}

-- The value of a run of digits of the base (at most 10), if it stays below the limit.
unfoldable pub digits_from : ℕ → ℕ → ℕ → List ℕ → Option ℕ
digits_from base limit n [] = some n
digits_from base limit n (c ∷ s) =
    let rest = digits_from base limit (n * base + (c - b'0')) s in
    if leb b'0' c && ltb c (b'0' + base) && ltb (n * base + (c - b'0')) limit then rest else none

-- strconv.ParseUint(s, base, bits), where `limit` is 2 ^ bits.
unfoldable pub parse_uint : ℕ → ℕ → List ℕ → Option ℕ
unfolding digits_from
parse_uint base limit [] = none
parse_uint base limit (c ∷ s) = digits_from base limit 0 (c ∷ s)

abbrev as_pos : Option ℕ → Option ℤ
as_pos none = none
as_pos (some n) = some (pos n)

-- -n
abbrev pub negate : ℕ → ℤ
negate n = if n == 0 then pos 0 else negsuc (n - 1)

abbrev as_neg : Option ℕ → Option ℤ
as_neg none = none
as_neg (some n) = some (negate n)

-- strconv.Atoi, for a 64-bit int.
unfoldable pub atoi : List ℕ → Option ℤ
unfolding parse_uint
atoi [] = none
atoi (c ∷ s) =
    if c == b'-'
    then as_neg (parse_uint 10 (2 ^ 63 + 1) s)
    else if c == b'+'
    then as_pos (parse_uint 10 (2 ^ 63) s)
    else as_pos (parse_uint 10 (2 ^ 63) (c ∷ s))

-- The octal digits of a number below 8 ^ fuel, the lowest last.
unfoldable pub octal_digits : ℕ → ℕ → List ℕ → List ℕ
octal_digits zero n s = s
octal_digits (suc fuel) n s =
    let more = octal_digits fuel (n / 8) ((b'0' + n % 8) ∷ s) in if n == 0 then s else more

-- fmt.Sprintf("%#o", n) of a uint32, which has at most 11 octal digits.
unfoldable pub format_octal : ℕ → List ℕ
unfolding octal_digits
format_octal n = b'0' ∷ octal_digits 11 n []

digits_from-lt :
    (base limit n : ℕ) (s : List ℕ) (r : ℕ)
    → n < limit
    → digits_from base limit n s ≡ some r
    → r < limit
unfolding digits_from
digits_from-lt base limit n [] r h e = ground arith
digits_from-lt base limit n (c ∷ s) r h e =
    ground (arith, digits_from-lt base limit (n * base + (c - b'0')) s r)

-- A number that ParseUint accepts fits the width.
pub parse_uint-lt :
    (base limit : ℕ) (s : List ℕ) {r : ℕ} → 0 < limit → parse_uint base limit s ≡ some r → r < limit
unfolding parse_uint
parse_uint-lt base limit [] h e = cc
parse_uint-lt base limit (c ∷ s) {r} h e = digits_from-lt base limit 0 (c ∷ s) r h e
