-- ===== src/Include/Laws.antt =====
-- What the tasks of an included file leave out.
use sophons.Base.{◌≡◌, ◌∙◌, refl, String, Bool, Option, none, some, List, [], ◌∷◌, map}
use sophons.Base.Text.{All}
use sophons.Base.Action.{ok, each, pure, ◌>>=◌, ◌>>◌}
use sophons.Base.Congruence.{SameAt, bind-cong, then-cong, wrapping-cong, read-cong}
use sophons.Variables.{Any, Variables}
use sophons.Proto.Tasks.{MessageTask}
use sophons.Task.{Shared, Jinja, Contents}
use sophons.Task.Template.{render_field, process_any, Processed}
use sophons.Include.{TaskFiles, Run, process_loop, process_fields, prepare, run_task}

-- The task with its name and content only.
abbrev pub bare : {M : Type 0} → MessageTask M → MessageTask M
bare task = record {
  name = task.name;
  when = "";
  loop = none;
  register = "";
  content = task.content;
}

abbrev pub LoopRenders : Jinja → Variables → Option Any → Type 0
LoopRenders jinja vars none = Unit
LoopRenders jinja vars (some loop) = (p : Processed) × (process_any jinja vars loop ≡ ok p)

-- The templates in the condition, the loop and the name of the result have no errors.
pub record Renders {M : Type 0} (jinja : Jinja) (task : MessageTask M) : Type 0 where
  pub when : (vars : Variables) → (v : String) × (render_field jinja vars task.when ≡ ok v)
  pub loop : (vars : Variables) → LoopRenders jinja vars task.loop
  pub register : (vars : Variables) → (v : String) × (render_field jinja vars task.register ≡ ok v)

module _ {W M C R : Type 0} (jinja : Jinja) (contents : Contents W C R)
    (files : TaskFiles W M C) where
  empty_field : (vars : Variables) → render_field jinja vars "" ≡ ok ""
  unfolding render_field
  empty_field vars = refl

  loop-cong :
      (loop : Option Any) (m n : Run jinja contents files C) (s : Shared W C)
      → LoopRenders jinja s.vars loop
      → SameAt m n s
      → SameAt (process_loop jinja contents files loop >> m) (pure tt >> n) s
  unfolding ◌>>=◌
  loop-cong none m n s h k = record { same = k.same }
  loop-cong (some loop) m n s (p, h) k = record { same = rw h k.same }

  fields-cong :
      (task : MessageTask M) (c : C) (s : Shared W C)
      → Renders jinja task
      → SameAt
          (process_fields jinja contents files task c)
          (process_fields jinja contents files (bare task) c)
          s
  unfolding process_fields
  fields-cong task c s h = bind-cong _ _ _ s λ name s1 e.
      let (v, hv) = h.when s1.vars in
      read-cong _ _ _ _ s1 v "" hv (empty_field s1.vars) (
        loop-cong task.loop _ _ s1 (h.loop s1.vars) (
          bind-cong _ _ _ s1 λ c' s2 e'.
            let (r, hr) = h.register s2.vars in
            read-cong _ _ (pure c') (pure c') s2 r "" hr (empty_field s2.vars)
              (record { same = refl })))

  module _ (applied : C → String → Bool → Run jinja contents files R) (parent : String)
      (is_role : Bool) where
    run_task-bare :
        (task : MessageTask M) (s : Shared W C)
        → Renders jinja task
        → SameAt
            (run_task jinja contents files applied parent is_role task)
            (run_task jinja contents files applied parent is_role (bare task))
            s
    unfolding run_task prepare
    run_task-bare task s h =
        then-cong _ _ _ s
          (bind-cong _ _ _ s λ content s1 e. wrapping-cong _ _ _ s1 (fields-cong task content s1 h))

    -- The tasks of a file that is included run whatever their condition, once whatever their loop,
    -- and register nothing: without these, as long as they render, the file does the same.
    pub included_bare :
        (tasks : List (MessageTask M)) (s : Shared W C)
        → All (Renders jinja) tasks
        → each (run_task jinja contents files applied parent is_role) tasks s
          ≡ each (run_task jinja contents files applied parent is_role) (map bare tasks) s
    unfolding each
    included_bare [] s h = refl
    included_bare (task ∷ tasks) s (h, hs) =
        (then-cong _ _ _ s (run_task-bare task s h)).same
        ∙ (bind-cong (run_task jinja contents files applied parent is_role (bare task))
            (λ _. each (run_task jinja contents files applied parent is_role) tasks)
            (λ _. each (run_task jinja contents files applied parent is_role) (map bare tasks)) s
            (λ u s' e. record { same = included_bare tasks s' hs })).same
