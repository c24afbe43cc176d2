-- ===== src/Command/Laws.antt =====
-- What `command` and `shell` accept, when they run, and what they report.
use sophons.Base.{
  ℕ, String, ◌≡◌, refl, ◌≢◌, ◌↔◌, ◌⊎◌, eq_iff, Bool, true, false, not, Option, none, some, List, [],
  arith, is_some,
}
use sophons.Base.Text.{codes, fields, fields-space, All, is_space}
use sophons.Base.Action.{Error, ok, panic, ◌>>=◌}
use sophons.Os.{Os}
use sophons.Result.{CommonResult, State, checked}
use sophons.Result.Consistent.{
  IsConsistent, Reports, run-Reports, consistent_rules, set_common-IsConsistent,
}
use sophons.Command.Runs.{
  Asks, Exit, Line, Allowed, expanded_text, rc_of-Exit, prepare-Asks, words-Line,
  should_apply-Allowed,
}
use sophons.Command.{
  Cmd, Executor, Params, Applied, RunError, error_of, validate, should_apply, prepare,
  apply_command,
}
use sophons.Command.Apply
use sophons.Command.Apply.{CommandResult, fill, first_word, words}
use sophons.Command.Shell
use sophons.Command.Shell.{ShellResult}

-- A task is accepted exactly when one of `cmd` and `argv` is given, and `stdin_add_newline` is not
-- set to true without `stdin`.
pub validate_iff :
    (p : Params)
    → (validate p ≡ ok tt)
      ↔ (((p.cmd ≡ "") × (p.argv ≢ [])) ⊎ ((p.cmd ≢ "") × (p.argv ≡ [])))
        × ((p.stdin ≢ "") ⊎ (p.stdin_add_newline ≢ some true))
unfolding validate
validate_iff p = ground (arith, eq_iff p.cmd "", eq_iff p.stdin "")

module _ (os : Os) (x : Executor os.World) where
  words_blank :
      (p : Params) (expand : Bool) (w : os.World)
      → p.cmd ≢ ""
      → fields (codes (expanded_text os x expand w p.cmd)) ≡ []
      → words os x p expand w ≡ panic
  unfolding words
  words_blank p true w given none_left = ground (arith, eq_iff p.cmd "")
  words_blank p false w given none_left = ground (arith, eq_iff p.cmd "")

  -- An accepted command that is white space alone, or empty, once its variables have been replaced
  -- where that is asked for, makes Apply panic, before anything is run: there is no first field to
  -- take as its name.
  pub blank_cmd_panics :
      (p : Params) (expand : Bool) (w : os.World)
      → validate p ≡ ok tt
      → p.cmd ≢ ""
      → All (λ c. is_space c ≡ true) (codes (expanded_text os x expand w p.cmd))
      → ((Apply.apply os x p expand w).0 ≡ panic) × ((Apply.apply os x p expand w).1.world ≡ w)
  unfolding Apply.apply ◌>>=◌ checked
  blank_cmd_panics p expand w accepted given blank =
      let e = words_blank p expand w given (fields-space _ blank) in (rw e refl, rw e refl)

  fill-failed : (a : Applied) (c : CommonResult) → (fill a c).failed ≡ c.failed
  fill-failed a c = refl

  ruleset report_rules = (consistent_rules, set_common-IsConsistent, fill-failed)

  command_end-IsConsistent : (e : Option Error) → IsConsistent (Apply.end_of os x e)
  command_end-IsConsistent none = search consistent_rules
  command_end-IsConsistent (some e) = search consistent_rules

  run_words-IsConsistent :
      (p : Params) (name : List ℕ) (args : List (List ℕ))
      → IsConsistent (Apply.run_words os x p name args)
  unfolding Apply.run_words
  run_words-IsConsistent p name args = search (report_rules, command_end-IsConsistent) depth 9

  later-IsConsistent :
      (p : Params) (name : List ℕ) (args : List (List ℕ))
      → IsConsistent (Apply.check_and_run os x p name args)
  unfolding Apply.check_and_run
  later-IsConsistent p name args = search (report_rules, run_words-IsConsistent) depth 9

  apply_body-IsConsistent :
      (p : Params) (expand : Bool) → IsConsistent (Apply.apply_body os x p expand)
  unfolding Apply.apply_body
  apply_body-IsConsistent p expand = search (report_rules, later-IsConsistent) depth 9

  -- The task `command` returns an error exactly when its result has `failed` set.
  pub command-Reports :
      (p : Params) (expand : Bool) (w : os.World) → Reports (Apply.apply os x p expand w)
  unfolding Apply.apply
  command-Reports p expand w = run-Reports _ _ w (apply_body-IsConsistent p expand)

  shell_end-IsConsistent : (e : Option Error) → IsConsistent (Shell.end_of os x e)
  shell_end-IsConsistent none = search consistent_rules
  shell_end-IsConsistent (some e) = search consistent_rules

  run_line-IsConsistent :
      (p : Params) (name line : List ℕ) → IsConsistent (Shell.run_line os x p name line)
  unfolding Shell.run_line
  run_line-IsConsistent p name line = search (report_rules, shell_end-IsConsistent) depth 9

  shell_body-IsConsistent :
      (p : Params) (executable : String) → IsConsistent (Shell.apply_body os x p executable)
  unfolding Shell.apply_body
  shell_body-IsConsistent p executable = search (report_rules, run_line-IsConsistent) depth 9

  -- The task `shell` returns an error exactly when its result has `failed` set.
  pub shell-Reports :
      (p : Params) (executable : String) (w : os.World) → Reports (Shell.apply os x p executable w)
  unfolding Shell.apply
  shell-Reports p executable w = run-Reports _ _ w (shell_body-IsConsistent p executable)

  -- The end of Apply, from a state where nothing is marked.
  ended :
      (e : Option RunError) (s : State os.World CommandResult)
      → s.common.changed ≡ false
      → s.common.failed ≡ false
      → s.common.skipped ≡ false
      → let after = (Apply.end_of os x (error_of e) s).1 in
        (after.world ≡ s.world)
        × (after.common.stdout ≡ s.common.stdout)
        × (after.common.stderr ≡ s.common.stderr)
        × (after.common.rc ≡ s.common.rc)
        × (after.common.changed ≡ not (is_some e))
        × (after.common.failed ≡ is_some e)
        × (after.common.skipped ≡ false)
  unfolding checked
  ended none s c f k = (refl, refl, refl, refl, refl, f, k)
  ended (some e) s c f k = (refl, refl, refl, refl, c, refl, k)

  -- What the task leaves where it may run: one process has run, which was asked for what the
  -- parameters say, and the result has its output and exit code, is changed where it had no error
  -- and failed where it had one. Where it may not, nothing has run and the result says skipped.
  abbrev pub Done :
      Params → List ℕ → List (List ℕ) → os.World → State os.World CommandResult → Bool → Type 0
  Done p name args w after true =
      (cmd : Cmd) × Asks p name args cmd
      × let (ran, w') = x.start cmd w in
        (after.world ≡ w')
        × (after.common.stdout ≡ ran.stdout)
        × (after.common.stderr ≡ ran.stderr)
        × Exit ran.error after.common.rc
        × (after.common.changed ≡ not (is_some ran.error))
        × (after.common.failed ≡ is_some ran.error)
        × (after.common.skipped ≡ false)
  Done p name args w after false =
      (after.world ≡ w)
      × (after.common.skipped ≡ true)
      × (after.common.changed ≡ false)
      × (after.common.failed ≡ false)

  command_end :
      (p : Params) (expand : Bool) (name : List ℕ) (args : List (List ℕ)) (w : os.World) (go : Bool)
      → words os x p expand w ≡ ok (name, args)
      → should_apply os p.creates p.removes w ≡ ok go
      → Done p name args w (Apply.apply os x p expand w).1 go
  unfolding Apply.apply apply_command ◌>>=◌ checked
  command_end p expand name args w true line go =
      let cmd = prepare p.chdir p.stdin p.stdin_add_newline name args in
      let error = (x.start cmd w).0.error in
      rw (line, go)
        (let (world, out, errors, rc, changed, failed, skipped) = ended error _ refl refl refl in
          (
            cmd,
            prepare-Asks p name args,
            (world, out, errors, rw rc (rc_of-Exit error), changed, failed, skipped),
          ))
  command_end p expand name args w false line go = rw (line, go) (refl, refl, refl, refl)

  -- What the task `command` does with the words that `cmd` or `argv` give, where the patterns of
  -- `creates` and `removes` can be looked for. Where they let it run, it starts one process, with
  -- the words, `chdir` and `stdin` that it is given, and the result has its output and its exit
  -- code, is changed exactly where the process had no error, and failed exactly where it had one.
  -- Where they do not, nothing is run, and the result says skipped and nothing else.
  pub command_runs :
      (p : Params) (expand : Bool) (name : List ℕ) (args : List (List ℕ)) (w : os.World) (go : Bool)
      → Line os x p expand w name args
      → Allowed os x p w go
      → Done p name args w (Apply.apply os x p expand w).1 go
  command_runs p expand name args w go line allowed =
      command_end p expand name args w go (words-Line os x p expand w name args line)
        (should_apply-Allowed os x p w go allowed)

-- With `creates`, the parameter `removes` is not looked at.
pub should_apply_creates :
    (os : Os) (creates removes : String) (w : os.World)
    → creates ≢ ""
    → should_apply os creates removes w ≡ should_apply os creates "" w
unfolding should_apply
should_apply_creates os creates removes w given = ground (arith, eq_iff creates "")
