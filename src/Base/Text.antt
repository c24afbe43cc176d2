-- ===== src/Base/Text.antt =====
-- The functions of Go's package strings that the program calls, over the code points of a text.
use Prim.Native.Nat.{ℕ}
use Prim.Native.Char.{code}
use Prim.Native.String.{String}
use mathlib.Core.Path.{◌≡◌, refl}
use mathlib.Core.Bool.{Bool, true, false, ◌&&◌, ◌||◌}
use mathlib.Core.List.{List, [], ◌∷◌, ◌++◌, reverse}
use sophons.Base.Tests.{leb, ◌==◌, if◌then◌else◌}

abbrev pub codes : String → List ℕ
codes String.[] = []
codes (String.◌∷◌ c s) = code c ∷ codes s

-- unicode.IsSpace
unfoldable pub is_space : ℕ → Bool
is_space c =
    (leb 9 c && leb c 13)
    || c == 32
    || c == 0x85
    || c == 0xa0
    || c == 0x1680
    || (leb 0x2000 c && leb c 0x200a)
    || c == 0x2028
    || c == 0x2029
    || c == 0x202f
    || c == 0x205f
    || c == 0x3000

-- strings.Contains(s, string(c))
unfoldable pub contains : List ℕ → ℕ → Bool
contains [] c = false
contains (x ∷ xs) c = x == c || contains xs c

unfoldable pub trim_left : List ℕ → List ℕ
unfolding is_space
trim_left [] = []
trim_left (c ∷ s) = let rest = trim_left s in if is_space c then rest else c ∷ s

-- strings.TrimSpace
unfoldable pub trim_space : List ℕ → List ℕ
unfolding trim_left
trim_space s = reverse (trim_left (reverse (trim_left s)))

abbrev push : ℕ → List (List ℕ) → List (List ℕ)
push c [] = (c ∷ []) ∷ []
push c (w ∷ ws) = (c ∷ w) ∷ ws

-- strings.Split(s, string(c))
unfoldable pub split : ℕ → List ℕ → List (List ℕ)
split c [] = [] ∷ []
split c (x ∷ xs) = let rest = split c xs in if x == c then [] ∷ rest else push x rest

abbrev flush : List ℕ → List (List ℕ) → List (List ℕ)
flush [] ws = ws
flush (c ∷ w) ws = (c ∷ w) ∷ ws

-- `word` is the field that is being read.
unfoldable pub fields_from : List ℕ → List ℕ → List (List ℕ)
unfolding is_space
fields_from word [] = flush word []
fields_from word (c ∷ s) =
    let rest = fields_from [] s in
    let more = fields_from (word ++ (c ∷ [])) s in if is_space c then flush word rest else more

-- strings.Fields
unfoldable pub fields : List ℕ → List (List ℕ)
unfolding fields_from
fields s = fields_from [] s

abbrev pub All {ℓ κ} : {A : Type ℓ} → (A → Type κ) → List A → Type κ
All P [] = Unit
All P (x ∷ xs) = P x × All P xs

-- A text of white space alone has no fields.
pub fields-space : (s : List ℕ) → All (λ c. is_space c ≡ true) s → fields s ≡ []
unfolding fields
fields-space [] h = refl
fields-space (c ∷ s) (h, hs) = rw h (fields-space s hs)
