-- ===== src/Tests/Yaml.antt =====
-- Messages that are read from YAML.
use mathlib.Core.List.{Permᴰ}
use sophons.Base.{
  ℕ, arith, ◌≡◌, refl, ◌^◌, String, true, false, Option, none, some, List, [], ◌∷◌, ◌==◌,
  if◌then◌else◌,
}
use sophons.Base.Dict.{Dict, lookup}
use sophons.Base.Int.{pos}
use sophons.Base.Text.{codes}
use sophons.Base.Number.{parse_uint}
use sophons.Base.Action.{Outcome, ok}
use sophons.Apt.{Apt}
use sophons.Proto.{Yaml}
use sophons.Proto.Mode.{unmarshal_mode}
use sophons.Proto.Mode.Laws.{unmarshal_mode_number}
use sophons.Proto.Packages.{unmarshal_packages, marshal_packages}
use sophons.Proto.Packages.Laws.{ReadsBack, unmarshal_packages-marshal_packages}
use sophons.Proto.Aliases.{AptAliases, items_of, unmarshal_apt}
use sophons.Proto.Aliases.Laws.{first_given, unmarshal_apt-items}
use sophons.Proto.Tasks.{RawTask, tasks_unmarshal}
use sophons.Proto.Tasks.Laws.{SameTasks, tasks_unmarshal-Reordered}

-- A list starts with a comma, and everything else is a string and the number 420.
abbrev string_of : List ℕ → Option String
string_of [] = some ""
string_of (c ∷ b) = if c == b',' then none else some "git"

abbrev yaml : Yaml
yaml = record {
  to_string = string_of;
  to_int64 = λ b. some (pos 420);
  to_uint64 = λ b. some 420;
  to_strings = λ b. some ("git" ∷ "vim" ∷ []);
  of_string = codes;
  of_strings = λ items. codes ",";
  of_nil = [];
}

unmarshal_mode_number_example :
    (v : List ℕ) × (unmarshal_mode yaml (codes "0644") ≡ ok v)
    × (parse_uint 8 (2 ^ 32) v ≡ some 420)
unfolding sophons.Proto.Mode.is_quoted
unmarshal_mode_number_example =
    unmarshal_mode_number yaml (codes "0644") 420 refl refl (omega arith)

git_and_vim : ReadsBack yaml "git" ("vim" ∷ [])
git_and_vim = record { string = refl; strings = refl; not_string = refl }

unmarshal_packages-marshal_packages_example :
    unmarshal_packages yaml (marshal_packages yaml (some ("git" ∷ "vim" ∷ [])))
    ≡ ok ("git" ∷ "vim" ∷ [])
unmarshal_packages-marshal_packages_example =
    unmarshal_packages-marshal_packages yaml "git" ("vim" ∷ []) git_and_vim

abbrev nameless : Apt
nameless = record {
  name = none;
  state = "present";
  upgrade = "";
  deb = "";
  clean = false;
  update_cache = none;
  cache_valid_time = none;
}

abbrev aliased : AptAliases
aliased = record { pkg = "vim" ∷ []; «package» = "git" ∷ []; update_cache = true }

unmarshal_apt-items_example :
    (name : Option (List String)) × (unmarshal_apt
        (λ b. ok nameless)
        (λ b. ok aliased)
        (codes "pkg: vim")
      ≡ ok (record nameless { name = name; update_cache = some true }))
    × (items_of name ≡ first_given ([] ∷ ("git" ∷ []) ∷ ("vim" ∷ []) ∷ []))
unmarshal_apt-items_example =
    unmarshal_apt-items (λ b. ok nameless) (λ b. ok aliased) (codes "pkg: vim") nameless aliased
      refl refl

abbrev modules : Dict (ℕ → Outcome ℕ)
modules = ("file", λ n. ok n) ∷ []

abbrev raw : Dict ℕ → RawTask ℕ
raw content = record { name = "a"; when = ""; loop = none; register = ""; content = content }

abbrev module_first : Dict ℕ
module_first = ("file", 1) ∷ ("become", 2) ∷ []

abbrev module_last : Dict ℕ
module_last = ("become", 2) ∷ ("file", 1) ∷ []

same_task : SameTasks (raw module_first ∷ []) (raw module_last ∷ [])
same_task = (record { content = Permᴰ.swap refl refl; rest = refl }, tt)

tasks_unmarshal-Reordered_example :
    tasks_unmarshal (λ v. ok v) modules (raw module_first ∷ [])
    ≡ tasks_unmarshal (λ v. ok v) modules (raw module_last ∷ [])
unfolding lookup
tasks_unmarshal-Reordered_example =
    tasks_unmarshal-Reordered (λ v. ok v) modules (raw module_first ∷ []) (raw module_last ∷ [])
      same_task (omega arith, tt)
