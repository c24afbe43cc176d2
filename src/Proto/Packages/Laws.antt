-- ===== src/Proto/Packages/Laws.antt =====
-- A list of packages that is printed is read back.
use sophons.Base.{String, none, some, List, [], ◌∷◌, ◌≡◌, refl}
use sophons.Base.Action.{ok}
use sophons.Proto.{Yaml}
use sophons.Proto.Packages.{unmarshal_packages, marshal_packages}

-- What the library does with one value: a string and a list of strings are read back, and a list
-- of two strings or more is not a string.
pub record ReadsBack (y : Yaml) (name : String) (items : List String) : Type 0 where
  pub string : y.to_string (y.of_string name) ≡ some name
  pub strings : y.to_strings (y.of_strings (name ∷ items)) ≡ some (name ∷ items)
  pub not_string : y.to_string (y.of_strings (name ∷ items)) ≡ none

-- A list with a package in it is read back as it was printed, whether it is printed as a string or
-- as a list, where the library reads back what it prints.
pub unmarshal_packages-marshal_packages :
    (y : Yaml) (name : String) (items : List String)
    → ReadsBack y name items
    → unmarshal_packages y (marshal_packages y (some (name ∷ items))) ≡ ok (name ∷ items)
unfolding unmarshal_packages marshal_packages
unmarshal_packages-marshal_packages y name [] h = simp h.string refl
unmarshal_packages-marshal_packages y name (other ∷ items) h = simp (h.not_string, h.strings) refl
