-- ===== src/Task/Honest.antt =====
-- Contents whose results are honest about changes, and the tasks that run them.
use sophons.Base.{
  ℕ, String, ◌≡◌, refl, sym, ap, ◌∙◌, Bool, true, false, not, Option, List, [], ◌∷◌, arith,
  if◌then◌else◌,
}
use sophons.Base.Action.{
  Outcome, ok, err, panic, Action, After, bind-ok, err≢ok, panic≢ok, read, wrapping, pure, wrap,
  ◌>>=◌, ◌>>◌,
}
use sophons.Variables.{Any}
use sophons.Result.{empty_result}
use sophons.Task.{Shared, Jinja, Contents, Task, deref}
use sophons.Task.Template.{process_when}
use sophons.Task.Execute.{
  LoopResult, add_result, process_task, process_and_run, copy_content, set_var, iteration, copied,
  run_item, run_items,
}
use sophons.Task.Laws.{Same, process_task-Leaves, added, added_changed, run_items-added}

-- Where a content returns without an error and its result does not say `changed`, the machine is
-- as it was.
pub record IsHonest {W C R : Type 0} (contents : Contents W C R) : Type 0 where
  pub unchanged :
      (c : C) (parent : String) (is_role : Bool) (s : Shared W C) (r : R) (s' : Shared W C)
      → contents.apply c parent is_role s ≡ (ok r, s')
      → (contents.common r).changed ≡ false
      → s'.world ≡ s.world

module _ {W C R : Type 0} (jinja : Jinja) (contents : Contents W C R)
    (honest : IsHonest contents) where
  wrap-After :
      {A : Type 0} (I : Shared W C → Type 0) (t : String) (r : Outcome A) (s : Shared W C)
      → After I (λ _. Unit) r s
      → After I (λ _. Unit) (wrap t r) s
  wrap-After I t (ok a) s h = h
  wrap-After I t (err e) s h = tt
  wrap-After I t panic s h = tt

  processed_world :
      (task : Task) (t : String) (s : Shared W C) {when : String}
      → (wrapping t (process_task jinja contents task) s).0 ≡ ok when
      → (wrapping t (process_task jinja contents task) s).1.world ≡ s.world
  unfolding ◌>>=◌
  processed_world task t s {when} e =
      let (r, s') = process_task jinja contents task s in
      let after : After (λ s'. Same jinja contents s' s) (λ _. Unit) (wrap t r) s' =
        wrap-After _ t r s' ((process_task-Leaves jinja contents s task).at s (refl, refl)) in
      let same : Same jinja contents s' s = rw e at after in same.0

  abbrev validated : C → String → Bool → Action (Shared W C) R
  validated c parent is_role =
      wrapping "validation failed" (read (λ s. contents.validate c))
      >> contents.apply c parent is_role

  abbrev applied : Option ℕ → String → Bool → Action (Shared W C) R
  applied ref parent is_role = read (λ s. deref ref s.heap) >>= λ c. validated c parent is_role

  applied_world :
      (ref : Option ℕ) (parent : String) (is_role : Bool) (s : Shared W C) (r : R) (s' : Shared W C)
      → applied ref parent is_role s ≡ (ok r, s')
      → (contents.common r).changed ≡ false
      → s'.world ≡ s.world
  unfolding ◌>>=◌
  applied_world ref parent is_role s r s' h unchanged =
      let (c, e, h1) =
        bind-ok (read (λ (s : Shared W C). deref ref s.heap)) (λ c. validated c parent is_role) s
          h in
      let (u, e', h2) =
        bind-ok (wrapping "validation failed" (read (λ (s : Shared W C). contents.validate c)))
          (λ u. contents.apply c parent is_role) s h1 in
      honest.unchanged c parent is_role s r s' h2 unchanged

  gated_world :
      (holds : Bool) (ref : Option ℕ) (parent : String) (is_role : Bool) (s : Shared W C) (r : R)
      (s' : Shared W C)
      → (if not holds then pure (contents.of_common empty_result) else applied ref parent is_role) s
        ≡ (ok r, s')
      → (contents.common r).changed ≡ false
      → s'.world ≡ s.world
  unfolding ◌>>=◌
  gated_world true ref parent is_role s r s' h unchanged =
      applied_world ref parent is_role s r s' h unchanged
  gated_world false ref parent is_role s r s' h unchanged =
      ap (λ (x : Outcome R × Shared W C). x.1.world) (sym h)

  read_same :
      {A : Type 0} (t : String) (f : Shared W C → Outcome A) (s : Shared W C)
      → (wrapping t (read f) s).1 ≡ s
  unfolding ◌>>=◌
  read_same t f s = refl

  -- A task that returns, and whose result does not say `changed`, has left the machine as it was,
  -- where its content is honest about changes.
  pub process_and_run_honest :
      (task : Task) (parent : String) (is_role : Bool) (s : Shared W C) (r : R) (s' : Shared W C)
      → process_and_run jinja contents task parent is_role s ≡ (ok r, s')
      → (contents.common r).changed ≡ false
      → s'.world ≡ s.world
  unfolding process_and_run
  process_and_run_honest task parent is_role s r s' h unchanged =
      let (when, e, h1) =
        bind-ok (wrapping "failed to process Jinja templating" (process_task jinja contents task)) _
          s h in
      let s1 =
        (wrapping "failed to process Jinja templating" (process_task jinja contents task) s).1 in
      let (holds, e', h2) =
        bind-ok
          (wrapping "failed to process when condition"
            (read (λ (s : Shared W C). process_when jinja s.vars when)))
          _ s1 h1 in
      gated_world holds task.content parent is_role _ r s' h2 unchanged
      ∙ ap (λ (s : Shared W C). s.world)
          (read_same "failed to process when condition" (λ s. process_when jinja s.vars when) s1)
      ∙ processed_world task "failed to process Jinja templating" s e

  wrap-ok : {A : Type 0} (t : String) (q : Outcome A) {a : A} → wrap t q ≡ ok a → q ≡ ok a
  wrap-ok t (ok b) h = h
  wrap-ok t (err e) h = absurd (err≢ok h)
  wrap-ok t panic h = absurd (panic≢ok h)

  wrapped-ok :
      {A : Type 0} (t : String) (m : Action (Shared W C) A) (s : Shared W C) {a : A}
      {s' : Shared W C}
      → wrapping t m s ≡ (ok a, s')
      → m s ≡ (ok a, s')
  unfolding ◌>>=◌
  wrapped-ok t m s {a} {s'} h =
      let e : (m s).0 ≡ ok a = wrap-ok t (m s).0 (ap (λ x. x.0) h) in
      ap (λ x. (x, (m s).1)) e ∙ ap (λ y. (ok a, y)) (ap (λ x. x.1) h)

  copied-world : (s : Shared W C) (q : Outcome C) → (copied jinja contents s q).1.world ≡ s.world
  copied-world s (ok c) = refl
  copied-world s (err e) = refl
  copied-world s panic = refl

  copy_content-world :
      (t : String) (ref : Option ℕ) (s : Shared W C)
      → (wrapping t (copy_content jinja contents ref) s).1.world ≡ s.world
  unfolding copy_content ◌>>=◌
  copy_content-world t ref s = copied-world s (deref ref s.heap)

  set_var-world :
      (key : String) (v : Any) (s : Shared W C) → (set_var jinja contents key v s).1.world ≡ s.world
  unfolding set_var
  set_var-world key v s = refl

  run_item_honest :
      (task : Task) (parent : String) (is_role : Bool) (item : Any) (s : Shared W C) (r : R)
      (s' : Shared W C)
      → run_item jinja contents task parent is_role item s ≡ (ok r, s')
      → (contents.common r).changed ≡ false
      → s'.world ≡ s.world
  unfolding run_item
  run_item_honest task parent is_role item s r s' h unchanged =
      let copying =
        wrapping "failed to copy task content" (copy_content jinja contents task.content) in
      let (i, e, h1) = bind-ok copying _ s h in
      let s1 = (copying s).1 in
      let (u, e', h2) = bind-ok (set_var jinja contents "item" item) _ s1 h1 in
      process_and_run_honest (iteration jinja contents task i) parent is_role _ r s'
        (wrapped-ok "failed to execute task" _ _ h2) unchanged
      ∙ set_var-world "item" item s1
      ∙ copy_content-world "failed to copy task content" task.content s

  pure-world :
      {A : Type 0} (a : A) (s : Shared W C) {b : A} {s' : Shared W C}
      → pure a s ≡ (ok b, s')
      → s'.world ≡ s.world
  unfolding ◌>>=◌
  pure-world {A} a s h = ap (λ (x : Outcome A × Shared W C). x.1.world) (sym h)

  first_unchanged :
      (acc : LoopResult R) (r1 : R) (rs : List R) (r : LoopResult R)
      → r ≡ added jinja contents (add_result jinja contents acc r1) rs
      → r.common.changed ≡ false
      → (contents.common r1).changed ≡ false
  first_unchanged acc r1 rs r e unchanged =
      let all =
        ap (λ (x : LoopResult R). x.common.changed) e
        ∙ added_changed jinja contents (add_result jinja contents acc r1) rs in
      ground (arith, all, unchanged)

  -- A loop that returns, and whose result does not say `changed`, has left the machine as it was,
  -- where its content is honest about changes.
  pub run_items_honest :
      (task : Task) (parent : String) (is_role : Bool) (acc : LoopResult R) (items : List Any)
      (s : Shared W C) (r : LoopResult R) (s' : Shared W C)
      → run_items jinja contents task parent is_role acc items s ≡ (ok r, s')
      → r.common.changed ≡ false
      → s'.world ≡ s.world
  unfolding run_items
  run_items_honest task parent is_role acc [] s r s' h unchanged = pure-world acc s h
  run_items_honest task parent is_role acc (item ∷ items) s r s' h unchanged =
      let first = run_item jinja contents task parent is_role item in
      let (r1, e1, rest) = bind-ok first _ s h in
      let (rs, n, e) =
        run_items-added jinja contents task parent is_role items (add_result jinja contents acc r1)
          _ rest in
      run_items_honest task parent is_role (add_result jinja contents acc r1) items _ r s' rest
        unchanged
      ∙ run_item_honest task parent is_role item s r1 (first s).1 (ap (λ x. (x, (first s).1)) e1)
          (first_unchanged acc r1 rs r e unchanged)
