-- ===== src/Proto/Tasks/Laws.antt =====
-- The order in which Go ranges over the keys of a task does not matter, if one of them is a module.
use sophons.Base.{ℕ, ◌+◌, ◌≤◌, arith, Option, none, some, List, [], ◌∷◌, ◌≡◌, ◌∙◌, refl, ap}
use mathlib.Core.List.{Permᴰ}
use sophons.Base.Dict.{lookup, Dict}
use sophons.Base.Action.{Outcome}
use sophons.Variables.{Any}
use sophons.Proto.Tasks.{RawTask, content_or, content_of, unmarshal_task, tasks_unmarshal}

module _ {N C : Type 0} (modules : Dict (N → Outcome C)) where
  abbrev one_if : Option (N → Outcome C) → ℕ
  one_if none = 0
  one_if (some decode) = 1

  -- How many keys are modules.
  abbrev pub module_count : Dict N → ℕ
  module_count [] = 0
  module_count ((name, node) ∷ content) = one_if (lookup name modules) + module_count content

  module_count-Perm : {xs ys : Dict N} → Permᴰ xs ys → module_count xs ≡ module_count ys
  module_count-Perm Permᴰ.nil = refl
  module_count-Perm (Permᴰ.cons e p) = rw (e, module_count-Perm p) refl
  module_count-Perm (Permᴰ.swap e f) = rw (e, f) (omega arith)
  module_count-Perm (Permᴰ.trans p q) = module_count-Perm p ∙ module_count-Perm q

  content_or-swap :
      (a b : Option (N → Outcome C)) (x y : N) (rest : Outcome (Option C))
      → one_if a + one_if b ≤ 1
      → content_or a x (content_or b y rest) ≡ content_or b y (content_or a x rest)
  content_or-swap none b x y rest h = refl
  content_or-swap (some f) none x y rest h = refl
  content_or-swap (some f) (some g) x y rest h = absurd (omega arith)

  content_of-Perm :
      {xs ys : Dict N}
      → Permᴰ xs ys
      → module_count xs ≤ 1
      → content_of modules xs ≡ content_of modules ys
  unfolding content_of
  content_of-Perm Permᴰ.nil h = refl
  content_of-Perm (Permᴰ.cons e p) h = rw (e, content_of-Perm p (omega arith)) refl
  content_of-Perm (Permᴰ.swap {a' = a'} {b' = b'} {l = l} e f) h =
      let small : one_if (lookup b'.0 modules) + (one_if (lookup a'.0 modules) + module_count l)
          ≤ 1 =
        rw (e, f) at h in
      rw (e, f)
        (content_or-swap (lookup b'.0 modules) (lookup a'.0 modules) b'.1 a'.1
          (content_of modules l) (omega arith))
  content_of-Perm (Permᴰ.trans p q) h =
      content_of-Perm p h ∙ content_of-Perm q (rw (module_count-Perm p) at h)

-- The same task, with its keys in another order.
pub record Reordered {N : Type 0} (a b : RawTask N) : Type 0 where
  pub content : Permᴰ a.content b.content
  pub rest : record a { content = b.content } ≡ b

abbrev pub SameTasks : {N : Type 0} → List (RawTask N) → List (RawTask N) → Type 0
SameTasks [] [] = Unit
SameTasks (a ∷ l) (b ∷ m) = Reordered a b × SameTasks l m
SameTasks [] (b ∷ m) = ⊥
SameTasks (a ∷ l) [] = ⊥

-- Each task has at most one key that is a module.
abbrev pub OneModule : {N C : Type 0} → Dict (N → Outcome C) → List (RawTask N) → Type 0
OneModule modules [] = Unit
OneModule modules (a ∷ l) = (module_count modules a.content ≤ 1) × OneModule modules l

module _ {N C : Type 0} (to_value : Any → Outcome Any) (modules : Dict (N → Outcome C)) where
  unmarshal_task-Reordered :
      (a b : RawTask N)
      → Reordered a b
      → module_count modules a.content ≤ 1
      → unmarshal_task to_value modules a ≡ unmarshal_task to_value modules b
  unfolding unmarshal_task
  unmarshal_task-Reordered a b h small =
      simp (content_of-Perm modules h.content small) refl
      ∙ ap (unmarshal_task to_value modules) h.rest

  -- Where no task has two keys that are modules, the order in which Go ranges over the keys of the
  -- tasks does not change what is read, errors included.
  pub tasks_unmarshal-Reordered :
      (l m : List (RawTask N))
      → SameTasks l m
      → OneModule modules l
      → tasks_unmarshal to_value modules l ≡ tasks_unmarshal to_value modules m
  unfolding tasks_unmarshal
  tasks_unmarshal-Reordered [] [] same one = refl
  tasks_unmarshal-Reordered [] (b ∷ m) same one = absurd same
  tasks_unmarshal-Reordered (a ∷ l) [] same one = absurd same
  tasks_unmarshal-Reordered (a ∷ l) (b ∷ m) (h, same) (small, one) =
      rw (unmarshal_task-Reordered a b h small, tasks_unmarshal-Reordered l m same one) refl
