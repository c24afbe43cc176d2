-- ===== src/Proto/Mode/Laws.antt =====
-- A mode that is a number in YAML is the number that the tasks give to chmod.
use sophons.Base.{
  ℕ, zero, suc, ◌+◌, ◌-◌, ◌*◌, ◌/◌, ◌%◌, ◌^◌, ◌<◌, ◌≡◌, ◌∙◌, inl, inr, refl, true, false,
  Bool-cases, some, List, [], ◌∷◌, arith, ◌==◌, ltb, leb, ==_iff,
}
use sophons.Base.Int.{pos}
use sophons.Base.Number.{octal_digits, digits_from, parse_uint}
use sophons.Base.Action.{ok}
use sophons.Proto.{Yaml}
use sophons.Proto.Mode.{format_uint, is_quoted, unmarshal_mode}

-- `n` has at most `fuel` octal digits.
abbrev Fits : ℕ → ℕ → Type 0
Fits zero n = n ≡ 0
Fits (suc fuel) n = Fits fuel (n / 8)

digits_from-digit :
    (limit n : ℕ) (s : List ℕ)
    → n < limit
    → digits_from 8 limit (n / 8) ((b'0' + n % 8) ∷ s) ≡ digits_from 8 limit n s
unfolding digits_from
digits_from-digit limit n s small =
    let value : (n / 8) * 8 + ((b'0' + n % 8) - b'0') ≡ n = omega arith in
    let low : leb b'0' (b'0' + n % 8) ≡ true = ground arith in
    let high : ltb (b'0' + n % 8) (b'0' + 8) ≡ true = ground arith in
    let fits : ltb n limit ≡ true = ground arith in rw (value, low, high, fits) refl

-- Reading the digits of a number, and then `s`.
digits_from-octal_digits :
    (fuel limit n : ℕ) (s : List ℕ)
    → n < limit
    → Fits fuel n
    → digits_from 8 limit 0 (octal_digits fuel n s) ≡ digits_from 8 limit n s
unfolding octal_digits
digits_from-octal_digits zero limit n s small fits = rw fits refl
digits_from-octal_digits (suc fuel) limit n s small fits = elim (Bool-cases (n == 0)) [
  | inl none_left ↦ let z : n ≡ 0 = (==_iff n 0).0 none_left in rw (none_left, z) refl
  | inr more ↦ rw more (
      digits_from-octal_digits fuel limit (n / 8) ((b'0' + n % 8) ∷ s) (omega arith) fits
      ∙ digits_from-digit limit n s small)
]

below-Fits : (fuel n : ℕ) → n < 8 ^ fuel → Fits fuel n
below-Fits zero n small = omega arith
below-Fits (suc fuel) n small = below-Fits fuel (n / 8) (omega arith)

parse_uint-octal_digits :
    (fuel limit n c : ℕ) (s : List ℕ)
    → parse_uint 8 limit (octal_digits fuel n (c ∷ s))
      ≡ digits_from 8 limit 0 (octal_digits fuel n (c ∷ s))
unfolding octal_digits parse_uint
parse_uint-octal_digits zero limit n c s = refl
parse_uint-octal_digits (suc fuel) limit n c s = elim (Bool-cases (n == 0)) [
  | inl none_left ↦ rw none_left refl
  | inr more ↦ rw more (parse_uint-octal_digits fuel limit (n / 8) (b'0' + n % 8) (c ∷ s))
]

parse_uint-digits :
    (fuel limit n : ℕ)
    → n < limit
    → n < 8 ^ suc fuel
    → (n == 0) ≡ false
    → parse_uint 8 limit (octal_digits (suc fuel) n []) ≡ some n
unfolding octal_digits digits_from
parse_uint-digits fuel limit n small fits more = rw more (
    parse_uint-octal_digits fuel limit (n / 8) (b'0' + n % 8) []
    ∙ digits_from-octal_digits fuel limit (n / 8) ((b'0' + n % 8) ∷ []) (omega arith)
        (below-Fits (suc fuel) n fits)
    ∙ digits_from-digit limit n [] small)

format_zero : parse_uint 8 (2 ^ 32) (format_uint 0) ≡ some 0
unfolding format_uint parse_uint digits_from
format_zero = refl

pub parse_uint-format_uint : (n : ℕ) → n < 2 ^ 32 → parse_uint 8 (2 ^ 32) (format_uint n) ≡ some n
unfolding format_uint
parse_uint-format_uint n small = elim (Bool-cases (n == 0)) [
  | inl z ↦ rw ((==_iff n 0).0 z) format_zero
  | inr more ↦ rw more (parse_uint-digits 21 (2 ^ 32) n small (omega arith) more)
]

-- A mode that YAML reads as a number below 2 ^ 32, and that is not quoted, becomes a text that
-- ParseUint, in base 8 and for 32 bits as the tasks call it, reads as that number.
pub unmarshal_mode_number :
    (y : Yaml) (b : List ℕ) (n : ℕ)
    → is_quoted b ≡ false
    → y.to_int64 b ≡ some (pos n)
    → n < 2 ^ 32
    → (v : List ℕ) × (unmarshal_mode y b ≡ ok v) × (parse_uint 8 (2 ^ 32) v ≡ some n)
unfolding unmarshal_mode
unmarshal_mode_number y b n plain number small =
    (format_uint n, rw (plain, number) refl, parse_uint-format_uint n small)
