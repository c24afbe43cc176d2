-- ===== src/Util.antt =====
-- pkg/exec/util/util.go: the ids of users and groups, and a list that may be given as one string.
pub mod Mode
use sophons.Base.{String, str_eq, Option, none, some, List, [], ◌∷◌, if◌then◌else◌}
use sophons.Base.Text.{codes}
use sophons.Base.Int.{ℤ, minus_one}
use sophons.Base.Number.{atoi}
use sophons.Base.Action.{Outcome, ok, err, panic, message, and_then}
use sophons.Variables.{Any, null, text, strings}
use sophons.Os.{Os}

unfoldable pub get_string_slice : Any → List String
get_string_slice (text s) = s ∷ []
get_string_slice (strings l) = l
get_string_slice _ = []

-- strconv.Atoi(u.Uid)
abbrev number_of : Option ℤ → Outcome ℤ
number_of none = err (message "invalid syntax")
number_of (some n) = ok n

-- The error of the first lookup is dropped, and the second decides.
abbrev by_id_or_name : Outcome String → Outcome String → Outcome String
by_id_or_name (ok id) by_name = ok id
by_id_or_name (err e) by_name = by_name
by_id_or_name panic by_name = panic

module _ (os : Os) where
  -- -1 leaves the owner as it is.
  unfoldable pub get_uid : String → os.World → Outcome ℤ
  get_uid user w =
      if str_eq user ""
      then ok minus_one
      else and_then (by_id_or_name (os.lookup_id user w) (os.lookup_user user w))
          (λ id. number_of (atoi (codes id)))

  unfoldable pub get_gid : String → os.World → Outcome ℤ
  get_gid group w =
      if str_eq group ""
      then ok minus_one
      else and_then (by_id_or_name (os.lookup_group_id group w) (os.lookup_group group w))
          (λ id. number_of (atoi (codes id)))
