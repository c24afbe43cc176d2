-- ===== src/Base/Dict.antt =====
-- Go's maps with string keys, as association lists. The list's order stands for the order in which
-- one run of the program ranges over the map, which Go leaves open: theorems hold for every order.
use Prim.Native.String.{String}
use mathlib.Core.Path.{◌≡◌, refl}
use mathlib.Core.Bool.{Bool, true}
use mathlib.Core.Option.{Option, none, some}
use mathlib.Core.List.{List, [], ◌∷◌}
use native.Mathlib.Omega.{arith}
use text.Mathlib.Text.{◌==◌}
use text.Mathlib.TextEquality.{eq_iff}
use sophons.Base.Tests.{if◌then◌else◌, is_some}

abbrev pub Dict {ℓ} : Type ℓ → Type ℓ
Dict V = List (String × V)

-- map[string]struct{}
abbrev pub Names : Type 0
Names = Dict Unit

abbrev pub or_else {ℓ} : {A : Type ℓ} → Option A → Option A → Option A
or_else none b = b
or_else (some a) b = some a

module _ {ℓ} {V : Type ℓ} where
  -- v, ok := m[k]
  unfoldable pub lookup : String → Dict V → Option V
  lookup k [] = none
  lookup k ((j, v) ∷ m) = if k == j then some v else lookup k m

  -- m[k] = v
  unfoldable pub insert : String → V → Dict V → Dict V
  insert k v [] = (k, v) ∷ []
  insert k v ((j, w) ∷ m) = if k == j then (k, v) ∷ m else (j, w) ∷ insert k v m

  -- maps.Copy(dst, src). A Go map has each key once, so the order of the writes does not matter.
  unfoldable pub copy : Dict V → Dict V → Dict V
  unfolding insert
  copy dst [] = dst
  copy dst ((k, v) ∷ src) = insert k v (copy dst src)

  pub lookup-insert :
      (j k : String) (v : V) (m : Dict V)
      → lookup j (insert k v m) ≡ (if j == k then some v else lookup j m)
  unfolding lookup insert
  lookup-insert j k v [] = refl
  lookup-insert j k v ((i, w) ∷ m) =
      ground (arith, lookup-insert j k v m, eq_iff j k, eq_iff k i, eq_iff j i)

  pub lookup-copy :
      (j : String) (dst src : Dict V)
      → lookup j (copy dst src) ≡ or_else (lookup j src) (lookup j dst)
  unfolding lookup copy
  lookup-copy j dst [] = refl
  lookup-copy j dst ((k, v) ∷ src) =
      ground (arith, lookup-insert j k v (copy dst src), lookup-copy j dst src)

  abbrev pub has : String → Dict V → Bool
  has k m = is_some (lookup k m)

  pub has-insert_self : (k : String) (v : V) (m : Dict V) → has k (insert k v m) ≡ true
  has-insert_self k v m = ground (arith, lookup-insert k k v m, eq_iff k k)
