-- ===== src/Tests/Includes.antt =====
-- A file of tasks that is included, on a machine that is the list of what has been applied.
use sophons.Base.{
  ℕ, arith, ◌<◌, ◌≡◌, refl, sym, String, str_eq, false, Bool-cases, inl, inr, ◌⊎◌, none, List, [],
  ◌∷◌, map, if◌then◌else◌,
}
use sophons.Base.Action.{ok, err, message, each, ok-injective, ◌>>=◌}
use sophons.Variables.{strings}
use sophons.Result.{CommonResult, empty_result, task_changed}
use sophons.Proto.Tasks.{MessageTask}
use sophons.Task.{Shared, Jinja, Contents}
use sophons.Task.Template.{render_field}
use sophons.Include.{
  TaskFiles, other, includes, imports, read_tasks, prepare, run_task, apply_content,
}
use sophons.Include.Laws.{bare, Renders, included_bare}
use sophons.Include.Termination.{IsRanked, enough_fuel}

abbrev jinja : Jinja
jinja = record { render = λ vars s. ok s; evaluate = λ vars s. ok none }

abbrev words : Contents (List String) String CommonResult
words = record {
  validate = λ c. ok tt;
  apply = λ c parent is_role s. (ok (task_changed empty_result), record s { world = c ∷ s.world });
  process = λ vars c. (c, none);
  clone = λ c. c;
  common = λ r. r;
  of_common = λ r. r;
  to_map = λ r. ok (strings []);
  loop_to_map = λ c rs. ok (strings []);
}

abbrev greet : MessageTask String
greet = record { name = ""; when = "false"; loop = none; register = "greeting"; content = "hello" }

-- The content `more` includes a file with the one task above.
abbrev files : TaskFiles (List String) String String
files = record {
  join = λ a b. b;
  read_file = λ path w. ok path;
  unmarshal = λ text. ok (greet ∷ []);
  adapt = λ c. ok c;
  kind_of = λ c. if str_eq c "more" then includes "more.yml" else other;
}

abbrev start : Shared (List String) String
start = record { world = []; vars = []; heap = [] }

abbrev rank : String → ℕ
rank c = if str_eq c "more" then 1 else 0

greet_prepared :
    (s : Shared (List String) String) (d : String)
    → (prepare jinja words files greet s).0 ≡ ok d
    → rank d < 1
unfolding prepare ◌>>=◌ render_field
greet_prepared s d h = rw (sym (ok-injective h)) (omega arith)

file_ranks :
    (c file : String)
    → (files.kind_of c ≡ includes file) ⊎ (files.kind_of c ≡ imports file)
    → rank c ≡ 1
file_ranks c file h = elim (Bool-cases (str_eq c "more")) [
  | inl e ↦ rw e refl
  | inr e ↦ absurd (elim h [
    | inl k ↦ let missing : other ≡ includes file = rw e at k in (cc)
    | inr k ↦ let missing : other ≡ imports file = rw e at k in (cc)
  ])
]

files-IsRanked : IsRanked jinja words files rank
unfolding read_tasks
files-IsRanked = record {
  falls = λ c file parent is_role w tasks includes found.
      rw (sym (ok-injective found))
        (λ s d p. rw (file_ranks c file includes) (greet_prepared s d p), tt);
}

enough_fuel_example :
    apply_content jinja words files (err (message "deeper")) 2 "more" "" false start
    ≡ apply_content jinja words files (ok empty_result) 3 "more" "" false start
enough_fuel_example =
    enough_fuel jinja words files rank files-IsRanked (err (message "deeper")) (ok empty_result) 2 3
      "more" "" false start (omega arith) (omega arith)

greet-Renders : Renders jinja greet
unfolding render_field
greet-Renders = record {
  when = λ vars. ("false", refl);
  loop = λ vars. tt;
  register = λ vars. ("greeting", refl);
}

included_bare_example :
    each (run_task jinja words files words.apply "" false) (greet ∷ []) start
    ≡ each (run_task jinja words files words.apply "" false) (map bare (greet ∷ [])) start
included_bare_example =
    included_bare jinja words files words.apply "" false (greet ∷ []) start (greet-Renders, tt)
