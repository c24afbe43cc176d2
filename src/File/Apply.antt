-- ===== src/File/Apply.antt =====
-- `Apply` of pkg/exec/file.go, one definition for each case of its switch.
pub mod Consistent
pub mod Honest
use sophons.Base.{
  is_some, ℕ, ◌<◌, String, str_eq, Bool, true, false, not, ◌&&◌, ◌||◌, Option, none, some, List,
  ltb, if◌then◌else◌,
}
use sophons.Base.Int.{ℤ}
use sophons.Base.Number.{format_octal}
use sophons.Base.Action.{
  Error, message, is_not_exist, Outcome, ok, err, panic, Action, wrapping, ◌>>=◌, ◌>>◌, pure, each,
  raise,
}
use sophons.Os.{Os, FileInfo, StatT, WalkEntry}
use sophons.Util.{get_uid, get_gid}
use sophons.Util.Mode.{ModeArg, absent, apply_mode_and_ids}
use sophons.Result.{
  State, mark_changed, mark_skipped, set_extra, fail, query, observe, call, checked, run,
  CommonResult,
}
use sophons.File.{
  File, FileResult, empty_file_result, mode_value, file_absent, file_directory, file_file,
  file_hard, file_link, file_touch,
}
use sophons.File.Attributes.{needs_change, sys_of}

module _ (os : Os) where
  abbrev pub Task : Type 0 → Type 0
  Task A = Action (State os.World FileResult) A

  abbrev pub set_changed : Bool → Task (Unit {0})
  set_changed b = set_extra (λ r. record r { changed = b })

  abbrev pub set_path : String → Task (Unit {0})
  set_path p = set_extra (λ r. record r { path = p })

  abbrev pub set_dest : String → Task (Unit {0})
  set_dest p = set_extra (λ r. record r { dest = p })

  abbrev pub set_state : String → Task (Unit {0})
  set_state p = set_extra (λ r. record r { state = p })

  abbrev existing : Outcome FileInfo → Outcome Bool
  existing (ok info) = ok true
  existing (err e) = if is_not_exist e then ok false else err e
  existing panic = panic

  unfoldable pub exists : String → os.World → Outcome Bool
  exists path w = existing (os.lstat path w)

  -- if needsUpdate { changed = true; ApplyModeAndIDs }
  unfoldable pub mark_and_update : String → ModeArg → ℤ → ℤ → Task (Unit {0})
  mark_and_update path mode uid gid = do
    needs ← checked (query (needs_change os path mode uid gid))
    if needs
        then (do
          set_changed true
          checked (
              wrapping "couldn't apply mode and IDs"
                (call (apply_mode_and_ids os path mode uid gid))))
        else pure tt

  -- if needsUpdate { ApplyModeAndIDs; changed = true }
  unfoldable pub update_and_mark : String → ModeArg → ℤ → ℤ → Task (Unit {0})
  update_and_mark path mode uid gid = do
    needs ← checked (query (needs_change os path mode uid gid))
    if needs
        then (do
          checked (
              wrapping "couldn't apply mode and IDs"
                (call (apply_mode_and_ids os path mode uid gid)))
          set_changed true)
        else pure tt

  abbrev pub visit_with : ModeArg → ℤ → ℤ → WalkEntry → Option Error → Task (Unit {0})
  visit_with mode uid gid entry (some e) = raise e
  visit_with mode uid gid entry none =
      if entry.symlink
      then (do
        needs ← query (needs_change os entry.path absent uid gid)
        if needs then (do set_changed true; call (os.lchown entry.path uid gid)) else pure tt)
      else (do
        needs ← query (needs_change os entry.path mode uid gid)
        if needs
            then (do set_changed true; call (apply_mode_and_ids os entry.path mode uid gid))
            else pure tt)

  -- The callback of filepath.WalkDir. A symbolic link gets no mode, and its own ids.
  unfoldable pub visit : ModeArg → ℤ → ℤ → WalkEntry → Task (Unit {0})
  visit mode uid gid entry = visit_with mode uid gid entry entry.error

  unfoldable pub walk : String → (WalkEntry → Task (Unit {0})) → Task (Unit {0})
  walk path fn s = each fn (os.walk_dir path s.world) s

  module _ (f : File) where
    unfoldable pub apply_absent : Bool → Task (Unit {0})
    apply_absent found = do
      set_path f.path
      set_state file_absent
      if found then (do checked (call (os.remove_all f.path)); mark_changed) else pure tt

    unfoldable pub make_directory : Bool → Task (Unit {0})
    make_directory found = do
      set_path f.path
      checked (call (os.mkdir_all f.path 0o755))
      set_changed (not found)

    unfoldable pub update_directory : ℤ → ℤ → Task (Unit {0})
    update_directory uid gid =
        if f.recurse
        then checked (walk f.path (visit (mode_value f) uid gid))
        else mark_and_update f.path (mode_value f) uid gid

    unfoldable pub link_to_src : Bool → Task (Unit {0})
    link_to_src found =
        if not found then (do checked (call (os.symlink f.src f.path)); set_changed true) else (do
          existing_src ← checked (query (os.readlink f.path))
          if not (str_eq existing_src f.src)
              then (do
                checked (call (os.remove f.path))
                checked (call (os.symlink f.src f.path))
                set_changed true)
              else pure tt)

    abbrev pub follows : Bool
    follows = elim f.follow [ none ↦ true | some b ↦ b ]

    unfoldable pub apply_link : Bool → ℤ → ℤ → Task (Unit {0})
    apply_link found uid gid = do
      set_dest f.path
      link_to_src found
      if follows then update_and_mark f.path (mode_value f) uid gid else pure tt

    unfoldable pub create_missing : Bool → Task (Unit {0})
    create_missing found =
        if not found
        then (do checked (wrapping "failed to create" (call (os.create f.path))); set_changed true)
        else pure tt

    unfoldable pub apply_touch : Bool → ℤ → ℤ → Task (Unit {0})
    apply_touch found uid gid = do
      set_dest f.path
      create_missing found
      update_and_mark f.path (mode_value f) uid gid

    -- The state that the result reports.
    unfoldable pub state_of : FileInfo → StatT → String
    state_of info st =
        if info.is_symlink
        then file_link
        else if info.is_dir
        then file_directory
        else if ltb 1 st.nlink
        then file_hard
        else file_file

    abbrev name_or_empty : Outcome String → String
    name_or_empty (ok name) = name
    name_or_empty (err e) = ""
    name_or_empty panic = ""

    -- What follows the switch. `finish_steps` is given the variable `changed`.
    unfoldable pub later_steps : Task (Unit {0})
    later_steps = do
      info ← checked (wrapping "failed to stat" (query (os.lstat f.path)))
      set_extra (λ r. record r { mode = format_octal info.perm })
      st ← checked (query (λ w. sys_of info.sys))
      set_state (state_of info st)
      set_extra (λ r. record r { uid = st.uid; gid = st.gid; size = st.size })
      owner ← observe (λ w. name_or_empty (os.user_name st.uid w))
      set_extra (λ r. record r { owner = owner })
      group ← observe (λ w. name_or_empty (os.group_name st.gid w))
      set_extra (λ r. record r { group = group })

    unfoldable pub finish_steps : Bool → Task (Unit {0})
    finish_steps changed = do if changed then mark_changed else pure tt; later_steps

    unfoldable pub finish : Task (Unit {0})
    unfolding finish_steps
    finish s = finish_steps s.extra.changed s

    unfoldable pub apply_directory : Bool → ℤ → ℤ → Task (Unit {0})
    unfolding make_directory update_directory
    apply_directory found uid gid = do make_directory found; update_directory uid gid; finish

    -- Without attributes Apply returns inside the switch.
    unfoldable pub apply_file : Bool → ℤ → ℤ → Task (Unit {0})
    apply_file found uid gid = do
      set_path f.path
      if not found
          then fail (message "file does not exist")
          else if not (is_some f.mode) && str_eq f.owner "" && str_eq f.group ""
          then mark_skipped
          else (do mark_and_update f.path (mode_value f) uid gid; finish)

    abbrev pub actual_state : Bool → String
    actual_state found =
        if str_eq f.state ""
        then (if not found then (if f.recurse then file_directory else file_file) else f.state)
        else f.state

    unfoldable pub dispatch : String → Bool → ℤ → ℤ → Task (Unit {0})
    dispatch state found uid gid =
        if str_eq state file_absent
        then apply_absent found
        else if str_eq state file_directory
        then apply_directory found uid gid
        else if str_eq state file_file
        then apply_file found uid gid
        else if str_eq state file_hard
        then (do set_dest f.path; fail (message "not implemented"))
        else if str_eq state file_link
        then (do apply_link found uid gid; finish)
        else if str_eq state file_touch
        then (do apply_touch found uid gid; finish)
        else fail (message "unsupported state parameter")

    unfoldable pub apply_body : Task (Unit {0})
    apply_body = do
      found ← checked (query (exists f.path))
      uid ← checked (query (get_uid os f.owner))
      gid ← checked (query (get_gid os f.group))
      dispatch (actual_state found) found uid gid

    unfoldable pub apply : os.World → Outcome (Unit {0}) × State os.World FileResult
    unfolding apply_body
    apply w = run apply_body empty_file_result w
