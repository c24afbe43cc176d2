-- ===== src/Proto/Packages.antt =====
-- pkg/proto/apt_yaml.go: a list of packages, which YAML may give as one string.
pub mod Laws
use sophons.Base.{ℕ, String, Option, none, some, List, [], ◌∷◌}
use sophons.Base.Action.{message, Outcome, ok, err}
use sophons.Proto.{Yaml}

abbrev from_list : Option (List String) → Outcome (List String)
from_list none = err (message "failed to unmarshal package name")
from_list (some items) = ok items

abbrev from_scalar : Option String → Outcome (List String) → Outcome (List String)
from_scalar none rest = rest
from_scalar (some name) rest = ok (name ∷ [])

-- PackageList.UnmarshalYAML: the items.
unfoldable pub unmarshal_packages : Yaml → List ℕ → Outcome (List String)
unmarshal_packages y b = from_scalar (y.to_string b) (from_list (y.to_strings b))

-- PackageList.MarshalYAML, where `none` is a nil pointer.
unfoldable pub marshal_packages : Yaml → Option (List String) → List ℕ
marshal_packages y none = y.of_nil
marshal_packages y (some []) = y.of_nil
marshal_packages y (some (name ∷ [])) = y.of_string name
marshal_packages y (some (name ∷ other ∷ items)) = y.of_strings (name ∷ other ∷ items)
