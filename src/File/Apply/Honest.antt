-- ===== src/File/Apply/Honest.antt =====
-- The task `file` reports a change whenever it has changed the machine.
use sophons.Base.{
  ℕ, sym, ap, ◌∙◌, ◌≡◌, refl, inl, inr, Option, some, none, Bool, true, false, String,
}
use sophons.Base.Int.{ℤ}
use sophons.Base.Action.{
  Error, message, continue, ◌>>=◌, Outcome, panic, err, ok, bind-Keeps, After, Leads, bind-Leads,
  ◌>>◌,
}
use sophons.Os.{Os, WalkEntry}
use sophons.Util.{get_uid, get_gid}
use sophons.Util.Mode.{ModeArg}
use sophons.Result.{State, mark_changed, call, query, failing, fail, checked}
use sophons.Result.Honest.{
  IsHonest, Notes, Noted, Notes-IsHonest, set_extra-Notes, set_extra-IsHonest, flag_first,
  each-IsHonest, checked-IsHonest, raise-IsHonest, if-IsHonest, fail-IsHonest, pure-IsHonest,
  mark_changed-Notes, honest_rules,
}
use sophons.File.{File, FileResult, mode_value}
use sophons.File.Apply.{
  Task, actual_state, exists, set_dest, make_directory, update_directory, later_steps, set_changed,
  finish_steps, mark_and_update, update_and_mark, visit, visit_with, walk, apply_absent,
  apply_directory, apply_file, link_to_src, apply_link, create_missing, apply_touch, finish,
  dispatch, apply_body, apply,
}

abbrev flag : FileResult → Bool
flag r = r.changed

module _ (os : Os) (start : os.World) where
  set_changed-Notes : Notes flag start (set_changed os true)
  set_changed-Notes = set_extra-Notes flag start _ (λ r. refl)

  ruleset file_rules = (honest_rules, set_changed-Notes, set_extra-IsHonest)

  mark_and_update-IsHonest :
      (path : String) (mode : ModeArg) (uid gid : ℤ)
      → IsHonest flag start (mark_and_update os path mode uid gid)
  unfolding mark_and_update
  mark_and_update-IsHonest path mode uid gid =
      bind-Keeps _ _ (search file_rules) λ b. search (file_rules, flag_first)

  update_and_mark-IsHonest :
      (path : String) (mode : ModeArg) (uid gid : ℤ)
      → IsHonest flag start (update_and_mark os path mode uid gid)
  unfolding update_and_mark
  update_and_mark-IsHonest path mode uid gid = search (file_rules, Notes-IsHonest)

  visit-IsHonest :
      (mode : ModeArg) (uid gid : ℤ) (entry : WalkEntry)
      → IsHonest flag start (visit os mode uid gid entry)
  unfolding visit
  visit-IsHonest mode uid gid entry = visit_entry entry.error
    where
      visit_entry : (e : Option Error) → IsHonest flag start (visit_with os mode uid gid entry e)
      visit_entry (some e) = raise-IsHonest flag start e
      visit_entry none = search (file_rules, flag_first) depth 6

  walk-IsHonest :
      (path : String) (fn : WalkEntry → Task os (Unit {0}))
      → ((e : WalkEntry) → IsHonest flag start (fn e))
      → IsHonest flag start (walk os path fn)
  unfolding walk
  walk-IsHonest path fn k = record {
    at = λ s h. (each-IsHonest flag start fn (os.walk_dir path s.world) k).at s h;
  }

  -- Once the variable `changed` no longer counts.
  abbrev unflagged : FileResult → Bool
  unflagged r = false

  abbrev Final : State os.World FileResult → Type 0
  Final = Noted unflagged start

  start_noted : (s : State os.World FileResult) → Final s → Noted flag start s
  start_noted s (inl e) = inl e
  start_noted s (inr (inl e)) = inr (inl e)
  start_noted s (inr (inr e)) = cc

  end_noted :
      (s : State os.World FileResult) → s.extra.changed ≡ false → Noted flag start s → Final s
  end_noted s off (inl e) = inl e
  end_noted s off (inr (inl e)) = inr (inl e)
  end_noted s off (inr (inr e)) = cc

  abbrev AtStart : State os.World FileResult → Type 0
  AtStart s = s.world ≡ start

  resume :
      {A B : Type 0} (r : Outcome A) (k : A → Task os B) (s : State os.World FileResult)
      → AtStart s
      → ((a : A) → r ≡ ok a → Leads AtStart Final (k a))
      → After Final
          (λ _. Unit)
          (continue (failing r s).0 k (failing r s).1).0
          (continue (failing r s).0 k (failing r s).1).1
  resume (ok a) k s e h = (h a refl).at s e
  resume (err x) k s e h = tt
  resume panic k s e h = tt

  query_first :
      {A B : Type 0} (g : os.World → Outcome A) (k : A → Task os B)
      → ((a : A) → g start ≡ ok a → Leads AtStart Final (k a))
      → Leads AtStart Final (checked (query g) >>= k)
  unfolding ◌>>=◌ checked
  query_first g k h = record {
    at = λ s e. resume (g s.world) k s e (λ a p. h a (sym (ap g e) ∙ p));
  }

  conclude :
      (r : Outcome (Unit {0})) (s : State os.World FileResult)
      → After Final (λ _. Unit) r s
      → r ≡ ok tt
      → s.common.changed ≡ false
      → s.world ≡ start
  conclude (ok u) s (inl e) done off = e
  conclude (ok u) s (inr (inl e)) done off = cc
  conclude (ok u) s (inr (inr e)) done off = cc
  conclude (err x) s h done off = cc
  conclude panic s h done off = cc

  module _ (f : File) where
    later_steps-IsHonest : IsHonest unflagged start (later_steps os f)
    unfolding later_steps
    later_steps-IsHonest = search file_rules depth 12

    finish_noted :
        (b : Bool) (s : State os.World FileResult)
        → s.extra.changed ≡ b
        → Noted flag start s
        → After Final (λ _. Unit) (finish_steps os f b s).0 (finish_steps os f b s).1
    unfolding finish_steps
    finish_noted true s e h =
        (bind-Leads {P = Noted flag start} {Q = Final} {R = Final} mark_changed
            (λ _. later_steps os f)
            (record { at = λ s' _. (mark_changed-Notes unflagged start).at s' })
            (λ _. record { at = later_steps-IsHonest.at })).at
          s h
    finish_noted false s e h =
        (bind-Keeps _ _ (pure-IsHonest unflagged start tt) (λ _. later_steps-IsHonest)).at s
          (end_noted s e h)

    finish-Leads : Leads (Noted flag start) Final (finish os f)
    unfolding finish
    finish-Leads = record { at = λ s h. finish_noted s.extra.changed s refl h }

    -- A part that notes its changes in the variable, and what follows the switch.
    close :
        (m : Task os (Unit {0}))
        → IsHonest flag start m
        → IsHonest unflagged start (m >> finish os f)
    close m k = record {
      at = λ s h.
          (bind-Leads {P = Final} {Q = Noted flag start} {R = Final} m (λ _. finish os f)
              (record { at = λ s' h'. k.at s' (start_noted s' h') }) (λ _. finish-Leads)).at
            s h;
    }

    apply_absent-IsHonest : (found : Bool) → IsHonest unflagged start (apply_absent os f found)
    unfolding apply_absent
    apply_absent-IsHonest found = search (file_rules, Notes-IsHonest) depth 7

    update_and_finish-IsHonest :
        (uid gid : ℤ)
        → IsHonest unflagged start (mark_and_update os f.path (mode_value f) uid gid >> finish os f)
    update_and_finish-IsHonest uid gid =
        close _ (mark_and_update-IsHonest f.path (mode_value f) uid gid)

    apply_file-IsHonest :
        (found : Bool) (uid gid : ℤ) → IsHonest unflagged start (apply_file os f found uid gid)
    unfolding apply_file
    apply_file-IsHonest found uid gid = search (file_rules, update_and_finish-IsHonest) depth 7

    link_to_src-IsHonest : (found : Bool) → IsHonest flag start (link_to_src os f found)
    unfolding link_to_src
    link_to_src-IsHonest found = search (file_rules, Notes-IsHonest) depth 9

    apply_link-IsHonest :
        (found : Bool) (uid gid : ℤ) → IsHonest flag start (apply_link os f found uid gid)
    unfolding apply_link
    apply_link-IsHonest found uid gid =
        search (file_rules, link_to_src-IsHonest, update_and_mark-IsHonest) depth 7

    create_missing-IsHonest : (found : Bool) → IsHonest flag start (create_missing os f found)
    unfolding create_missing
    create_missing-IsHonest found = search (file_rules, Notes-IsHonest) depth 7

    apply_touch-IsHonest :
        (found : Bool) (uid gid : ℤ) → IsHonest flag start (apply_touch os f found uid gid)
    unfolding apply_touch
    apply_touch-IsHonest found uid gid =
        search (file_rules, create_missing-IsHonest, update_and_mark-IsHonest) depth 7

    update_directory-IsHonest : (uid gid : ℤ) → IsHonest flag start (update_directory os f uid gid)
    unfolding update_directory
    update_directory-IsHonest uid gid =
        search (file_rules, walk-IsHonest, visit-IsHonest, mark_and_update-IsHonest) depth 7

    -- MkdirAll does nothing where there is a directory already.
    module _
        (mkdir_all_existing : (path : String) (mode : ℕ) (w : os.World)
          → exists os path w ≡ ok true
          → (os.mkdir_all path mode w).0 ≡ ok tt
          → (os.mkdir_all path mode w).1 ≡ w) where
      mkdir_done :
          exists os f.path start ≡ ok true
          → (s : State os.World FileResult) → Final s
          → (r : Outcome (Unit {0})) (w : os.World) → os.mkdir_all f.path 0o755 s.world ≡ (r, w)
          → After Final (λ _. Unit) r (record s { world = w })
      mkdir_done found s (inl e) (ok u) w m = inl (
          sym (ap (λ p. p.1) m)
          ∙ ap (λ v. (os.mkdir_all f.path 0o755 v).1) e
          ∙ mkdir_all_existing f.path 0o755 start found
              (sym (ap (λ v. (os.mkdir_all f.path 0o755 v).0) e) ∙ ap (λ p. p.0) m))
      mkdir_done found s (inr h) (ok u) w m = inr h
      mkdir_done found s h (err e) w m = tt
      mkdir_done found s h panic w m = tt

      mkdir-IsHonest :
          exists os f.path start ≡ ok true
          → IsHonest unflagged start (call (os.mkdir_all f.path 0o755))
      unfolding call
      mkdir-IsHonest found = record { at = λ s h. mkdir_done found s h _ _ refl }

      made_already :
          exists os f.path start ≡ ok true → IsHonest unflagged start (make_directory os f true)
      unfolding make_directory
      made_already found = bind-Keeps _ _ (set_extra-IsHonest unflagged start _ (λ r h. h)) λ _.
          bind-Keeps _ _ (checked-IsHonest unflagged start _ (mkdir-IsHonest found))
            λ _. set_extra-IsHonest unflagged start _ (λ r h. h)

      made_new : IsHonest flag start (make_directory os f false)
      unfolding make_directory
      made_new = search (file_rules, Notes-IsHonest) depth 7

      leave :
          (r : Outcome (Unit {0})) (s : State os.World FileResult)
          → After Final (λ _. Unit) r s
          → After (Noted flag start) (λ _. Unit) r s
      leave (ok u) s h = start_noted s h
      leave (err e) s h = tt
      leave panic s h = tt

      make_directory-Leads :
          (found : Bool)
          → exists os f.path start ≡ ok found
          → Leads Final (Noted flag start) (make_directory os f found)
      make_directory-Leads true e = record { at = λ s h. leave _ _ ((made_already e).at s h) }
      make_directory-Leads false e = record { at = λ s h. made_new.at s (start_noted s h) }

      apply_directory-IsHonest :
          (found : Bool) (uid gid : ℤ)
          → exists os f.path start ≡ ok found
          → IsHonest unflagged start (apply_directory os f found uid gid)
      unfolding apply_directory
      apply_directory-IsHonest found uid gid e = record {
        at = λ s h.
            (bind-Leads {P = Final} {Q = Noted flag start} {R = Final} (make_directory os f found) _
                (make_directory-Leads found e)
                (λ _.
                  bind-Leads {Q = Noted flag start} (update_directory os f uid gid)
                    (λ _. finish os f) (record { at = (update_directory-IsHonest uid gid).at })
                    (λ _. finish-Leads))).at
              s h;
      }

      link_and_finish :
          (found : Bool) (uid gid : ℤ)
          → IsHonest unflagged start (apply_link os f found uid gid >> finish os f)
      link_and_finish found uid gid = close _ (apply_link-IsHonest found uid gid)

      touch_and_finish :
          (found : Bool) (uid gid : ℤ)
          → IsHonest unflagged start (apply_touch os f found uid gid >> finish os f)
      touch_and_finish found uid gid = close _ (apply_touch-IsHonest found uid gid)

      hard_state :
          IsHonest unflagged start
            (set_dest os f.path >> fail {A = Unit {0}} (message "not implemented"))
      hard_state = search file_rules

      dispatch-IsHonest :
          (state : String) (found : Bool) (uid gid : ℤ)
          → exists os f.path start ≡ ok found
          → IsHonest unflagged start (dispatch os f state found uid gid)
      unfolding dispatch
      dispatch-IsHonest state found uid gid e =
          if-IsHonest unflagged start _ _ _ (apply_absent-IsHonest found) (
            if-IsHonest unflagged start _ _ _ (apply_directory-IsHonest found uid gid e) (
              if-IsHonest unflagged start _ _ _ (apply_file-IsHonest found uid gid) (
                if-IsHonest unflagged start _ _ _ (hard_state) (
                  if-IsHonest unflagged start _ _ _ (link_and_finish found uid gid) (
                    if-IsHonest unflagged start _ _ _ (touch_and_finish found uid gid)
                      (fail-IsHonest unflagged start (message "unsupported state parameter")))))))

      apply_body-Leads : Leads AtStart Final (apply_body os f)
      unfolding apply_body
      apply_body-Leads = query_first (exists os f.path) _ λ found e.
          query_first (get_uid os f.owner) _ λ uid _. query_first (get_gid os f.group) _ λ gid _.
            record {
              at =
                  λ s h. (dispatch-IsHonest (actual_state os f found) found uid gid e).at s (inl h);
            }

-- The task `file` is honest about changes: where it returns without an error and its result does not
-- say `changed`, the machine is as it was. MkdirAll is taken to do nothing where it succeeds on a
-- path that exists.
pub apply_honest :
    (os : Os) (f : File) (w : os.World)
    → ((path : String) (mode : ℕ) (v : os.World)
        → exists os path v ≡ ok true
        → (os.mkdir_all path mode v).0 ≡ ok tt
        → (os.mkdir_all path mode v).1 ≡ v)
    → (apply os f w).0 ≡ ok tt
    → (apply os f w).1.common.changed ≡ false
    → (apply os f w).1.world ≡ w
unfolding apply
apply_honest os f w existing done unchanged =
    conclude os w _ _ ((apply_body-Leads os w f existing).at _ refl) done unchanged
