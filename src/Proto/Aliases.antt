-- ===== src/Proto/Aliases.antt =====
-- pkg/proto/apt_yaml.go, file_yaml.go and apt_repository_yaml.go: the other names of a parameter.
-- The library fills a message's own fields, and a structure with the other names; both may fail.
pub mod Laws
use sophons.Base.{
  ℕ, String, str_eq, Bool, Option, none, some, List, [], ◌∷◌, is_empty, not, if◌then◌else◌,
}
use sophons.Base.Action.{Outcome, ok, and_then}
use sophons.Apt.{Apt}
use sophons.AptRepository.{AptRepository}
use sophons.File.{File}

-- The local type apt: the items of two package lists, and a flag that is false where it is missing.
pub record AptAliases : Type 0 where
  pub pkg : List String
  pub «package» : List String
  pub update_cache : Bool

abbrev pub items_of : Option (List String) → List String
items_of none = []
items_of (some items) = items

-- The name of a task, and the two lists of the other names.
unfoldable pub alias_name : Option (List String) → List String → List String → Option (List String)
alias_name name of_package of_pkg =
    if not (is_empty (items_of name))
    then name
    else if not (is_empty of_package)
    then some of_package
    else if not (is_empty of_pkg)
    then some of_pkg
    else name

abbrev pub given_or : Option Bool → Option Bool → Option Bool
given_or none b = b
given_or (some a) b = some a

-- Apt.UnmarshalYAML
unfoldable pub unmarshal_apt :
    (List ℕ → Outcome Apt) → (List ℕ → Outcome AptAliases) → List ℕ → Outcome Apt
unfolding alias_name
unmarshal_apt plain other b = and_then (plain b) (λ a. and_then (other b) (λ aux. ok (record a {
  name = alias_name a.name aux.«package» aux.pkg;
  update_cache = given_or a.update_cache (some aux.update_cache);
})))

-- The local type file.
pub record FileAliases : Type 0 where
  pub dest : String
  pub name : String

unfoldable pub alias_path : File → FileAliases → String
alias_path f aux =
    if not (str_eq f.path "")
    then f.path
    else if not (str_eq aux.dest "")
    then aux.dest
    else if not (str_eq aux.name "")
    then aux.name
    else f.path

-- File.UnmarshalYAML
unfoldable pub unmarshal_file :
    (List ℕ → Outcome File) → (List ℕ → Outcome FileAliases) → List ℕ → Outcome File
unfolding alias_path
unmarshal_file plain other b =
    and_then (plain b) (λ f. and_then (other b) (λ aux. ok (record f { path = alias_path f aux })))

-- AptRepository.UnmarshalYAML, where `other` gives the flag of the local type aptRepository.
unfoldable pub unmarshal_apt_repository :
    (List ℕ → Outcome AptRepository)
    → (List ℕ → Outcome (Option Bool))
    → List ℕ
    → Outcome AptRepository
unmarshal_apt_repository plain other b = and_then (plain b) (λ a.
    and_then (other b) (λ flag. ok (record a { update_cache = given_or a.update_cache flag })))
