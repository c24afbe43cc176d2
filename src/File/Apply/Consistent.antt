-- ===== src/File/Apply/Consistent.antt =====
-- The task `file` fails exactly when its result says so.
use sophons.Base.{Option, some, none, Bool, String}
use sophons.Base.Int.{ℤ}
use sophons.Base.Action.{Error}
use sophons.Os.{Os, WalkEntry}
use sophons.Util.Mode.{ModeArg}
use sophons.Result.Consistent.{
  IsConsistent, Reports, run-Reports, IsQuiet, consistent_rules, each-IsQuiet, raise-IsQuiet,
}
use sophons.File.{File, empty_file_result}
use sophons.File.Apply.{
  Task, make_directory, update_directory, finish_steps, later_steps, mark_and_update,
  update_and_mark, visit, walk, apply_absent, apply_directory, apply_file, visit_with, link_to_src,
  apply_link, create_missing, apply_touch, finish, dispatch, apply_body, apply,
}

module _ (os : Os) where
  mark_and_update-IsConsistent :
      (path : String) (mode : ModeArg) (uid gid : ℤ)
      → IsConsistent (mark_and_update os path mode uid gid)
  unfolding mark_and_update
  mark_and_update-IsConsistent path mode uid gid = search consistent_rules depth 8

  update_and_mark-IsConsistent :
      (path : String) (mode : ModeArg) (uid gid : ℤ)
      → IsConsistent (update_and_mark os path mode uid gid)
  unfolding update_and_mark
  update_and_mark-IsConsistent path mode uid gid = search consistent_rules depth 8

  visit-IsQuiet :
      (mode : ModeArg) (uid gid : ℤ) (entry : WalkEntry) → IsQuiet (visit os mode uid gid entry)
  unfolding visit
  visit-IsQuiet mode uid gid entry = visit_entry entry.error
    where
      visit_entry : (e : Option Error) → IsQuiet (visit_with os mode uid gid entry e)
      visit_entry (some e) = raise-IsQuiet e
      visit_entry none = search consistent_rules depth 8

  walk-IsQuiet :
      (path : String) (fn : WalkEntry → Task os (Unit {0}))
      → ((e : WalkEntry) → IsQuiet (fn e))
      → IsQuiet (walk os path fn)
  unfolding walk
  walk-IsQuiet path fn k = record {
    at = λ s h. (each-IsQuiet fn (os.walk_dir path s.world) k).at s h;
  }

  ruleset file_rules = (
    consistent_rules, mark_and_update-IsConsistent, update_and_mark-IsConsistent, visit-IsQuiet,
    walk-IsQuiet,
  )

  module _ (f : File) where
    apply_absent-IsConsistent : (found : Bool) → IsConsistent (apply_absent os f found)
    unfolding apply_absent
    apply_absent-IsConsistent found = search file_rules depth 8

    link_to_src-IsConsistent : (found : Bool) → IsConsistent (link_to_src os f found)
    unfolding link_to_src
    link_to_src-IsConsistent found = search file_rules depth 10

    apply_link-IsConsistent :
        (found : Bool) (uid gid : ℤ) → IsConsistent (apply_link os f found uid gid)
    unfolding apply_link
    apply_link-IsConsistent found uid gid = search (file_rules, link_to_src-IsConsistent) depth 8

    create_missing-IsConsistent : (found : Bool) → IsConsistent (create_missing os f found)
    unfolding create_missing
    create_missing-IsConsistent found = search file_rules depth 8

    apply_touch-IsConsistent :
        (found : Bool) (uid gid : ℤ) → IsConsistent (apply_touch os f found uid gid)
    unfolding apply_touch
    apply_touch-IsConsistent found uid gid =
        search (file_rules, create_missing-IsConsistent) depth 8

    finish_steps-IsConsistent : (changed : Bool) → IsConsistent (finish_steps os f changed)
    unfolding finish_steps later_steps
    finish_steps-IsConsistent changed = search file_rules depth 14

    finish-IsConsistent : IsConsistent (finish os f)
    unfolding finish
    finish-IsConsistent = record { at = λ s h. (finish_steps-IsConsistent s.extra.changed).at s h }

    make_directory-IsConsistent : (found : Bool) → IsConsistent (make_directory os f found)
    unfolding make_directory
    make_directory-IsConsistent found = search file_rules depth 8

    update_directory-IsConsistent : (uid gid : ℤ) → IsConsistent (update_directory os f uid gid)
    unfolding update_directory
    update_directory-IsConsistent uid gid = search file_rules depth 8

    apply_directory-IsConsistent :
        (found : Bool) (uid gid : ℤ) → IsConsistent (apply_directory os f found uid gid)
    unfolding apply_directory
    apply_directory-IsConsistent found uid gid =
        search
          (
            file_rules, make_directory-IsConsistent, update_directory-IsConsistent,
            finish-IsConsistent,
          )
          depth 8

    apply_file-IsConsistent :
        (found : Bool) (uid gid : ℤ) → IsConsistent (apply_file os f found uid gid)
    unfolding apply_file
    apply_file-IsConsistent found uid gid = search (file_rules, finish-IsConsistent) depth 8

    dispatch-IsConsistent :
        (state : String) (found : Bool) (uid gid : ℤ)
        → IsConsistent (dispatch os f state found uid gid)
    unfolding dispatch
    dispatch-IsConsistent state found uid gid =
        search
          (
            file_rules, apply_absent-IsConsistent, apply_directory-IsConsistent,
            apply_file-IsConsistent, apply_link-IsConsistent, apply_touch-IsConsistent,
            finish-IsConsistent,
          )
          depth 14

    apply_body-IsConsistent : IsConsistent (apply_body os f)
    unfolding apply_body
    apply_body-IsConsistent = search (file_rules, dispatch-IsConsistent) depth 8

    -- The task `file` returns an error exactly when its result has `failed` set, whatever the machine
    -- answers.
    pub apply-Reports : (w : os.World) → Reports (apply os f w)
    unfolding apply
    apply-Reports w = run-Reports (apply_body os f) empty_file_result w apply_body-IsConsistent
