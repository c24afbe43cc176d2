-- ===== src/Task/Laws.antt =====
-- What tasks skip, repeat and register.
use mathlib.Core.List.{append-nil, append_assoc}
use sophons.Base.{
  ℕ, String, str_eq, ◌≡◌, refl, ap, sym, ◌∙◌, eq_iff, Bool, false, ◌||◌, Option, none, some, List,
  [], ◌∷◌, ◌++◌, arith, leb, if◌then◌else◌,
}
use sophons.Base.Dict.{lookup, lookup-insert}
use sophons.Base.Action.{
  wrap, wrapping, continue, Error, message, Outcome, ok, err, panic, Action, bind-ok, ok-injective,
  err≢ok, panic≢ok, After, Leads, bind-Leads, read, pure, and_then, ◌>>=◌,
}
use sophons.Variables.{Any, Variables, text}
use sophons.Result.{empty_result}
use sophons.Task.{Shared, Jinja, Contents, Task, length, at}
use sophons.Task.Template.{process_when, render_to_slice, process_any, loop_values, texts}
use sophons.Task.Execute.{
  LoopResult, empty_loop, add_result, process_content, process_task, process_and_run, run_item,
  run_items, register, set_var, raise_some, content_at, execute_once, execute_task,
}

module _ (jinja : Jinja) where
  -- A loop given as a template runs exactly where the template gives a list of two elements or
  -- more: a list of one element, and an empty list, are refused as not being a list.
  pub templated_loop :
      (vars : Variables) (s : String) (l : List String)
      → render_to_slice jinja vars s ≡ ok (some l)
      → and_then (process_any jinja vars (text s)) loop_values
        ≡ (if leb 2 (length l) then ok (texts l) else err (message "loop variable is not a list"))
  unfolding process_any loop_values
  templated_loop vars s [] h = rw h refl
  templated_loop vars s (x ∷ []) h = rw h refl
  templated_loop vars s (x ∷ y ∷ l) h = rw h ground arith

abbrev pub any_of : {R : Type 0} → (R → Bool) → List R → Bool
any_of f [] = false
any_of f (r ∷ rs) = f r || any_of f rs

module _ {W C R : Type 0} (jinja : Jinja) (contents : Contents W C R) where
  -- A task with a loop ignores its condition.
  pub loop_ignores_when :
      (task : Task) (when : String) (loop : Any) (parent : String) (is_role : Bool)
      → execute_task jinja contents (record task { loop = some loop; when = when }) parent is_role
        ≡ execute_task jinja contents (record task { loop = some loop }) parent is_role
  unfolding execute_task
  loop_ignores_when task when loop parent is_role = refl

  -- The results of the items, added up in order.
  pub added : LoopResult R → List R → LoopResult R
  added acc [] = acc
  added acc (r ∷ rs) = added (add_result jinja contents acc r) rs

  added_results : (acc : LoopResult R) (rs : List R) → (added acc rs).results ≡ acc.results ++ rs
  unfolding added
  added_results acc [] = sym (append-nil acc.results)
  added_results acc (r ∷ rs) =
      added_results (add_result jinja contents acc r) rs ∙ append_assoc acc.results (r ∷ []) rs

  pub added_changed :
      (acc : LoopResult R) (rs : List R)
      → (added acc rs).common.changed
        ≡ (acc.common.changed || any_of (λ x. (contents.common x).changed) rs)
  unfolding added
  added_changed acc [] = ground arith
  added_changed acc (r ∷ rs) = ground (arith, added_changed (add_result jinja contents acc r) rs)

  added_skipped :
      (acc : LoopResult R) (rs : List R)
      → (added acc rs).common.skipped
        ≡ (acc.common.skipped || any_of (λ x. (contents.common x).skipped) rs)
  unfolding added
  added_skipped acc [] = ground arith
  added_skipped acc (r ∷ rs) = ground (arith, added_skipped (add_result jinja contents acc r) rs)

  added_failed :
      (acc : LoopResult R) (rs : List R)
      → (added acc rs).common.failed
        ≡ (acc.common.failed || any_of (λ x. (contents.common x).failed) rs)
  unfolding added
  added_failed acc [] = ground arith
  added_failed acc (r ∷ rs) = ground (arith, added_failed (add_result jinja contents acc r) rs)

  -- The results that the items give one after the other, each from the state that the item before
  -- has left.
  abbrev pub InTurn : Task → String → Bool → List Any → List R → Shared W C → Shared W C → Type 0
  InTurn task parent is_role [] [] s s' = s ≡ s'
  InTurn task parent is_role (item ∷ items) (r ∷ rs) s s' =
      (s1 : Shared W C) × (run_item jinja contents task parent is_role item s ≡ (ok r, s1))
      × InTurn task parent is_role items rs s1 s'
  InTurn task parent is_role [] (r ∷ rs) s s' = ⊥
  InTurn task parent is_role (item ∷ items) [] s s' = ⊥

  pub run_items-added :
      (task : Task) (parent : String) (is_role : Bool) (items : List Any) (acc : LoopResult R)
      (s : Shared W C) {r : LoopResult R} {s' : Shared W C}
      → run_items jinja contents task parent is_role acc items s ≡ (ok r, s')
      → (rs : List R) × InTurn task parent is_role items rs s s' × (r ≡ added acc rs)
  unfolding run_items added ◌>>=◌
  run_items-added task parent is_role [] acc s {r} {s'} h =
      ([], ap (λ x. x.1) h, ok-injective (sym (ap (λ x. x.0) h)))
  run_items-added task parent is_role (item ∷ items) acc s h =
      let (r1, e1, rest) = bind-ok (run_item jinja contents task parent is_role item) _ s h in
      let s1 = (run_item jinja contents task parent is_role item s).1 in
      let (rs, n, e) =
        run_items-added task parent is_role items (add_result jinja contents acc r1) s1 rest in
      (r1 ∷ rs, (s1, ap (λ o. (o, s1)) e1, n), e)

  -- The results of a loop that returns are those of its items in order, one for each, where each
  -- item runs in the state that the one before has left; and the loop is changed, skipped or failed
  -- exactly where one of them is.
  pub run_items_accumulates :
      (task : Task) (parent : String) (is_role : Bool) (items : List Any) (s : Shared W C)
      (r : LoopResult R) (s' : Shared W C)
      → run_items jinja contents task parent is_role empty_loop items s ≡ (ok r, s')
      → InTurn task parent is_role items r.results s s'
        × (r.common.changed ≡ any_of (λ x. (contents.common x).changed) r.results)
        × (r.common.skipped ≡ any_of (λ x. (contents.common x).skipped) r.results)
        × (r.common.failed ≡ any_of (λ x. (contents.common x).failed) r.results)
  run_items_accumulates task parent is_role items s r s' h =
      let (rs, n, e) = run_items-added task parent is_role items empty_loop s h in
      let results = ap (λ x. x.results) e ∙ added_results empty_loop rs in
      (
        rw results n,
        ap (λ x. x.common.changed) e
            ∙ added_changed empty_loop rs
            ∙ sym (ap (any_of (λ x. (contents.common x).changed)) results),
        ap (λ x. x.common.skipped) e
            ∙ added_skipped empty_loop rs
            ∙ sym (ap (any_of (λ x. (contents.common x).skipped)) results),
        ap (λ x. x.common.failed) e
            ∙ added_failed empty_loop rs
            ∙ sym (ap (any_of (λ x. (contents.common x).failed)) results),
      )

  abbrev pub Same : Shared W C → Shared W C → Type 0
  Same s' s = (s'.world ≡ s.world) × (s'.vars ≡ s.vars)

  raise_some-Same : (e : Option Error) (s : Shared W C) → Same (raise_some {S = Shared W C} e s).1 s
  unfolding ◌>>=◌
  raise_some-Same none s = (refl, refl)
  raise_some-Same (some e) s = (refl, refl)

  process_content-Same :
      (ref : Option ℕ) (s : Shared W C) → Same (process_content jinja contents ref s).1 s
  unfolding process_content
  process_content-Same none s = (refl, refl)
  process_content-Same (some i) s =
      elim (at i s.heap) as (λ x. Same (content_at jinja contents i s x).1 s) [
        | ok c ↦ raise_some-Same (contents.process s.vars c).1 _
        | err e ↦ (refl, refl)
        | panic ↦ (refl, refl)
      ]

  -- What leaves the machine and the variables as they were in `s0`.
  abbrev pub Leaves : {A : Type 0} → Shared W C → Action (Shared W C) A → Type 0
  Leaves s0 m = Leads (λ s. Same s s0) (λ s. Same s s0) m

  pub after-Same :
      {A : Type 0} (s0 : Shared W C) (r : Outcome A) (s : Shared W C)
      → Same s s0
      → After (λ s'. Same s' s0) (λ _. Unit) r s
  after-Same s0 (ok a) s h = h
  after-Same s0 (err e) s h = tt
  after-Same s0 panic s h = tt

  read-Leaves : {A : Type 0} (s0 : Shared W C) (f : Shared W C → Outcome A) → Leaves s0 (read f)
  unfolding ◌>>=◌
  read-Leaves s0 f = record { at = λ s h. after-Same s0 (f s) s h }

  pure-Leaves : {A : Type 0} (s0 : Shared W C) (a : A) → Leaves s0 (pure a)
  unfolding ◌>>=◌
  pure-Leaves s0 a = record { at = λ s h. h }

  process_content-Leaves :
      (s0 : Shared W C) (ref : Option ℕ) → Leaves s0 (process_content jinja contents ref)
  process_content-Leaves s0 ref = record {
    at = λ s h.
        let same = process_content-Same ref s in after-Same s0 _ _ (same.0 ∙ h.0, same.1 ∙ h.1);
  }

  pub process_task-Leaves :
      (s0 : Shared W C) (task : Task) → Leaves s0 (process_task jinja contents task)
  unfolding process_task
  process_task-Leaves s0 task = bind-Leads _ _ (read-Leaves s0 _) λ name.
      bind-Leads _ _ (read-Leaves s0 _) λ when.
        bind-Leads _ _ (process_content-Leaves s0 task.content)
          λ u. bind-Leads _ _ (read-Leaves s0 _) λ name'. pure-Leaves s0 when

  process_task-Same :
      (task : Task) (when : String) (s s' : Shared W C)
      → process_task jinja contents task s ≡ (ok when, s')
      → Same s' s
  process_task-Same task when s s' processed =
      rw processed at ((process_task-Leaves s task).at s (refl, refl))

  -- A task whose condition does not hold gives an empty result, without being validated or applied.
  -- Neither the machine nor the variables change, though the content has been rendered.
  skipped_task :
      (task : Task) (parent : String) (is_role : Bool) (when : String) (s s' : Shared W C)
      → process_task jinja contents task s ≡ (ok when, s')
      → process_when jinja s'.vars when ≡ ok false
      → (process_and_run jinja contents task parent is_role s
          ≡ (ok (contents.of_common empty_result), s'))
        × (s'.world ≡ s.world)
        × (s'.vars ≡ s.vars)
  unfolding process_and_run ◌>>=◌
  skipped_task task parent is_role when s s' processed h =
      let same = process_task-Same task when s s' processed in
      (rw (processed, h) refl, same.0, same.1)

  register-lookup :
      (name : String) (value : Outcome Any) (context : String) (s s' : Shared W C)
      → str_eq name "" ≡ false
      → register jinja contents name value context s ≡ (ok tt, s')
      → (v : Any) × (value ≡ ok v) × (lookup name s'.vars ≡ some v)
  unfolding register set_var ◌>>=◌
  register-lookup name (ok v) context s s' named h = (
    v,
    refl,
    sym (ap (λ (x : Outcome (Unit {0}) × Shared W C). lookup name x.1.vars) (rw named at h))
        ∙ lookup-insert name name v s.vars
        ∙ ground (arith, eq_iff name name),
  )
  register-lookup name (err e) context s s' named h =
      absurd (err≢ok (ap (λ (x : Outcome (Unit {0}) × Shared W C). x.0) (rw named at h)))
  register-lookup name panic context s s' named h =
      absurd (panic≢ok (ap (λ (x : Outcome (Unit {0}) × Shared W C). x.0) (rw named at h)))

  wrapped-step :
      {A B : Type 0} (context : String) (q : Outcome A) (f : A → Action (Shared W C) B)
      (t : Shared W C) {b : B} {s' : Shared W C}
      → continue (wrap context q) f t ≡ (ok b, s')
      → (a : A) × (s1 : Shared W C) × (◌≡◌ {A = Outcome A × Shared W C} (q, t) (ok a, s1))
        × (f a s1 ≡ (ok b, s'))
  wrapped-step context (ok a) f t h = (a, t, refl, h)
  wrapped-step context (err e) f t h = cc
  wrapped-step context panic f t h = cc

  -- A chain that returns after a wrapped part: what that part gave, and the state it left.
  wrapping-bind :
      {A B : Type 0} (context : String) (m : Action (Shared W C) A) (f : A → Action (Shared W C) B)
      (s : Shared W C) {b : B} {s' : Shared W C}
      → (wrapping context m >>= f) s ≡ (ok b, s')
      → (a : A) × (s1 : Shared W C) × (m s ≡ (ok a, s1)) × (f a s1 ≡ (ok b, s'))
  unfolding ◌>>=◌
  wrapping-bind context m f s h = wrapped-step context (m s).0 f (m s).1 h

  register-world :
      (name : String) (value : Outcome Any) (context : String) (s : Shared W C)
      → (register jinja contents name value context s).1.world ≡ s.world
  unfolding register set_var ◌>>=◌
  register-world name (ok v) context s = ground arith
  register-world name (err e) context s = ground arith
  register-world name panic context s = ground arith

  -- Where a task without a loop names a variable and returns, the variable is the result that the
  -- task has given in this run, as a map, and the machine is as the task has left it.
  pub execute_once_registers :
      (task : Task) (parent : String) (is_role : Bool) (s s' : Shared W C)
      → str_eq task.register "" ≡ false
      → execute_once jinja contents task parent is_role s ≡ (ok tt, s')
      → (r : R) × (v : Any) × (s1 : Shared W C) × (process_and_run jinja contents task parent
            is_role s
          ≡ (ok r, s1))
        × (contents.to_map r ≡ ok v)
        × (lookup task.register s'.vars ≡ some v)
        × (s'.world ≡ s1.world)
  unfolding execute_once
  execute_once_registers task parent is_role s s' named h =
      let (r, s1, ran, rest) = wrapping-bind _ _ _ s h in
      let (v, e, found) = register-lookup task.register (contents.to_map r) _ s1 s' named rest in
      (
        r,
        v,
        s1,
        ran,
        e,
        found,
        sym (ap (λ o. o.1.world) rest) ∙ register-world task.register (contents.to_map r) _ s1,
      )
