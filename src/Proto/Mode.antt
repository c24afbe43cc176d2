-- ===== src/Proto/Mode.antt =====
-- pkg/proto/mode_yaml.go: a mode that YAML gives as a text or as a number.
pub mod Laws
use sophons.Base.{
  ℕ, zero, suc, ◌+◌, ◌/◌, ◌%◌, String, str_eq, Bool, true, false, ◌||◌, Option, none, some, List,
  [], ◌∷◌, ◌==◌, if◌then◌else◌,
}
use sophons.Base.Text.{codes}
use sophons.Base.Int.{ℤ, pos, negsuc}
use sophons.Base.Number.{octal_digits}
use sophons.Base.Action.{message, Outcome, ok, err}
use sophons.Proto.{Yaml}

-- strconv.FormatUint(n, 8), where a uint64 has at most 22 octal digits.
unfoldable pub format_uint : ℕ → List ℕ
format_uint n = if n == 0 then b'0' ∷ [] else octal_digits 22 n []

-- strconv.FormatInt(n, 8)
unfoldable pub format_int : ℤ → List ℕ
unfolding format_uint
format_int (pos n) = format_uint n
format_int (negsuc n) = b'-' ∷ format_uint (n + 1)

unfoldable pub is_quoted : List ℕ → Bool
is_quoted [] = false
is_quoted (c ∷ b) = c == 34 || c == 39

abbrev from_text : Option String → Outcome (List ℕ)
from_text none = err (message "failed to unmarshal mode")
from_text (some s) = ok (codes s)

abbrev from_uint : Option ℕ → Outcome (List ℕ) → Outcome (List ℕ)
from_uint none rest = rest
from_uint (some n) rest = ok (format_uint n)

abbrev from_int : Option ℤ → Outcome (List ℕ) → Outcome (List ℕ)
from_int none rest = rest
from_int (some n) rest = ok (format_int n)

abbrev from_quoted : Bool → Option String → Outcome (List ℕ) → Outcome (List ℕ)
from_quoted true (some s) rest = ok (codes s)
from_quoted true none rest = rest
from_quoted false s rest = rest

-- Mode.UnmarshalYAML: the value, as code points.
unfoldable pub unmarshal_mode : Yaml → List ℕ → Outcome (List ℕ)
unfolding is_quoted format_int
unmarshal_mode y b =
    from_quoted (is_quoted b) (y.to_string b)
      (from_int (y.to_int64 b) (from_uint (y.to_uint64 b) (from_text (y.to_string b))))

-- Mode.MarshalYAML, where `none` is a nil pointer
unfoldable pub marshal_mode : Yaml → Option String → List ℕ
marshal_mode y none = y.of_nil
marshal_mode y (some v) = if str_eq v "" then y.of_nil else y.of_string v
