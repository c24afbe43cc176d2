-- ===== src/Proto.antt =====
-- pkg/proto/*_yaml.go: how the parameters of tasks are read from YAML, where a message does not
-- leave that to the library.
pub mod Mode
pub mod Packages
pub mod Aliases
pub mod Tasks
use sophons.Base.{ℕ, String, Option, List}
use sophons.Base.Int.{ℤ}

-- yaml.Unmarshal of a value's text into a string, an int64, a uint64 or a []string: `none` is an
-- error. yaml.Marshal of a string, of a []string and of nil.
pub record Yaml : Type 0 where
  pub to_string : List ℕ → Option String
  pub to_int64 : List ℕ → Option ℤ
  pub to_uint64 : List ℕ → Option ℕ
  pub to_strings : List ℕ → Option (List String)
  pub of_string : String → List ℕ
  pub of_strings : List String → List ℕ
  pub of_nil : List ℕ
