-- ===== src/Include/Termination.antt =====
-- Files of tasks that include each other end, if no file includes itself through others.
use sophons.Base.{ℕ, zero, suc, ◌<◌, arith, ◌≡◌, refl, ◌⊎◌, String, Bool, inl, inr, List, [], ◌∷◌}
use sophons.Base.Text.{All}
use sophons.Base.Action.{Outcome, ok, each, pure, ◌>>◌}
use sophons.Result.{empty_result}
use sophons.Base.Congruence.{SameAt, bind-cong, then-cong, wrapping-cong, each-cong}
use sophons.Proto.Tasks.{MessageTask}
use sophons.Task.{Shared, Jinja, Contents}
use sophons.Include.{
  TaskFiles, includes, imports, kind-cases, Run, task_path, read_tasks, prepare, run_task, include,
  apply_content,
}

module _ {W M C R : Type 0} (jinja : Jinja) (contents : Contents W C R)
    (files : TaskFiles W M C) where
  -- The contents that the tasks can have once their templates are rendered all have the property.
  abbrev pub Prepared : (C → Type 0) → List (MessageTask M) → Type 0
  Prepared P =
      All (λ task. (s : Shared W C) (d : C) → (prepare jinja contents files task s).0 ≡ ok d → P d)

  Prepared-map :
      (P Q : C → Type 0)
      → ((d : C) → P d → Q d)
      → (tasks : List (MessageTask M)) → Prepared P tasks
      → Prepared Q tasks
  Prepared-map P Q f [] h = tt
  Prepared-map P Q f (task ∷ tasks) (h, hs) = (λ s d e. f d (h s d e), Prepared-map P Q f tasks hs)

  -- `rank` falls from a content that includes a file to the contents of the file's tasks.
  pub record IsRanked (rank : C → ℕ) : Type 0 where
    pub falls :
        (c : C) (file parent : String) (is_role : Bool) (w : W) (tasks : List (MessageTask M))
        → (files.kind_of c ≡ includes file) ⊎ (files.kind_of c ≡ imports file)
        → read_tasks jinja contents files (task_path jinja contents files parent is_role file) w
          ≡ ok tasks
        → Prepared (λ d. rank d < rank c) tasks

  module _ (f g : C → String → Bool → Run jinja contents files R) (parent : String)
      (is_role : Bool) where
    -- `f` and `g` apply the content alike.
    abbrev Agree : C → Type 0
    Agree d = (s : Shared W C) → SameAt (f d parent is_role) (g d parent is_role) s

    run_task-cong :
        (task : MessageTask M) (s : Shared W C)
        → ((s : Shared W C) (d : C) → (prepare jinja contents files task s).0 ≡ ok d → Agree d)
        → SameAt
            (run_task jinja contents files f parent is_role task)
            (run_task jinja contents files g parent is_role task)
            s
    unfolding run_task
    run_task-cong task s h = bind-cong _ _ _ s λ d s1 e.
        bind-cong _ _ _ s1 λ u s2 e'. then-cong _ _ _ s2 (wrapping-cong _ _ _ s2 (h s d e s2))

    All-Agree :
        (tasks : List (MessageTask M))
        → Prepared Agree tasks
        → All
            (λ task.
              (s : Shared W C)
              → SameAt
                  (run_task jinja contents files f parent is_role task)
                  (run_task jinja contents files g parent is_role task)
                  s)
            tasks
    All-Agree [] h = tt
    All-Agree (task ∷ tasks) (h, hs) = (λ s. run_task-cong task s h, All-Agree tasks hs)

    include-cong :
        (file : String) (s : Shared W C)
        → ((tasks : List (MessageTask M))
            → read_tasks jinja contents files
                (task_path jinja contents files parent is_role file)
                s.world
              ≡ ok tasks
            → Prepared Agree tasks)
        → SameAt
            (include jinja contents files f file parent is_role)
            (include jinja contents files g file parent is_role)
            s
    unfolding include
    include-cong file s h =
        bind-cong _ (λ tasks. each (run_task jinja contents files f parent is_role) tasks >> result)
          (λ tasks. each (run_task jinja contents files g parent is_role) tasks >> result) s
          λ tasks s1 e.
            then-cong _ _ (λ _. result) s1 (each-cong _ _ tasks s1 (All-Agree tasks (h tasks e)))
      where
        result : Run jinja contents files R
        result = pure (contents.of_common empty_result)

  module _ (rank : C → ℕ) (ranked : IsRanked rank) where
    -- Two ways to apply contents that agree below the rank of `c` agree on a file that it includes.
    include_same :
        (c : C) (f g : C → String → Bool → Run jinja contents files R) (parent : String)
        (is_role : Bool) (s : Shared W C)
        → ((d : C)
            → rank d < rank c
            → (s : Shared W C) → f d parent is_role s ≡ g d parent is_role s)
        → (file : String) → (files.kind_of c ≡ includes file) ⊎ (files.kind_of c ≡ imports file)
        → include jinja contents files f file parent is_role s
          ≡ include jinja contents files g file parent is_role s
    include_same c f g parent is_role s agree file e =
        (include-cong f g parent is_role file s λ tasks found.
          Prepared-map (λ d. rank d < rank c) _ (λ d below. λ s. record { same = agree d below s })
            tasks (ranked.falls c file parent is_role s.world tasks e found)).same

    -- Where no file includes itself through others, a fuel above the rank of a content is enough:
    -- the files are never nested deeper, and more fuel gives the same result in the same state.
    pub enough_fuel :
        (deeper deeper' : Outcome R) (m n : ℕ) (c : C) (parent : String) (is_role : Bool)
        (s : Shared W C)
        → rank c < m
        → rank c < n
        → apply_content jinja contents files deeper m c parent is_role s
          ≡ apply_content jinja contents files deeper' n c parent is_role s
    unfolding apply_content
    enough_fuel deeper deeper' zero n c parent is_role s hm hn = absurd (omega arith)
    enough_fuel deeper deeper' (suc m) zero c parent is_role s hm hn = absurd (omega arith)
    enough_fuel deeper deeper' (suc m) (suc n) c parent is_role s hm hn =
        let nested =
          include_same c (apply_content jinja contents files deeper m)
            (apply_content jinja contents files deeper' n) parent is_role s
            (λ d below s.
              enough_fuel deeper deeper' m n d parent is_role s (omega arith) (omega arith)) in
        elim (kind-cases (files.kind_of c)) [
          | inl leaf ↦ rw leaf refl
          | inr (file, inl e) ↦ rw e (nested file (inl e))
          | inr (file, inr e) ↦ rw e (nested file (inr e))
        ]
