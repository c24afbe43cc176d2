-- ===== src/Proto/Tasks.antt =====
-- pkg/proto/task_yaml.go: a list of tasks, each with the one key of its module among its own.
pub mod Laws
use sophons.Base.{String, Option, none, some, List, [], ◌∷◌}
use sophons.Base.Dict.{lookup, Dict}
use sophons.Base.Action.{message, Outcome, ok, err, and_then, wrap}
use sophons.Variables.{Any}

-- The local type unmarshalTask. A content's value is a node of the library's syntax tree.
pub record RawTask (N : Type 0) : Type 0 where
  pub name : String
  pub when : String
  pub loop : Option Any
  pub register : String
  pub content : Dict N

-- Task of the messages, with the content of type C.
pub record MessageTask (C : Type 0) : Type 0 where
  pub name : String
  pub when : String
  pub loop : Option Any
  pub register : String
  pub content : C

abbrev pub required : {C : Type 0} → Option C → Outcome C
required none = err (message "task has no recognized module content")
required (some c) = ok c

abbrev converted_loop : (Any → Outcome Any) → Option Any → Outcome (Option Any)
converted_loop to_value none = ok none
converted_loop to_value (some loop) =
    and_then (wrap "failed to convert loop to structpb.Value" (to_value loop)) (λ v. ok (some v))

module _ {N C : Type 0} where
  abbrev pub content_or : Option (N → Outcome C) → N → Outcome (Option C) → Outcome (Option C)
  content_or none node rest = rest
  content_or (some decode) node rest =
      and_then (wrap "failed to unmarshal module" (decode node)) (λ c. ok (some c))

  -- The loop over RawContent, in the map's order, which ends at the first module. `modules` is
  -- NameRegistry with the making of a message and the reading of a node into it.
  unfoldable pub content_of : Dict (N → Outcome C) → Dict N → Outcome (Option C)
  content_of modules [] = ok none
  content_of modules ((name, node) ∷ content) =
      content_or (lookup name modules) node (content_of modules content)

  unfoldable pub unmarshal_task :
      (Any → Outcome Any) → Dict (N → Outcome C) → RawTask N → Outcome (MessageTask C)
  unfolding content_of
  unmarshal_task to_value modules raw = and_then (converted_loop to_value raw.loop) (λ loop.
      and_then (and_then (content_of modules raw.content) required) (λ c. ok (record {
        name = raw.name;
        when = raw.when;
        loop = loop;
        register = raw.register;
        content = c;
      })))

  -- tasksUnmarshalYAML, of the tasks that the library reads
  unfoldable pub tasks_unmarshal :
      (Any → Outcome Any) → Dict (N → Outcome C) → List (RawTask N) → Outcome (List (MessageTask C))
  unfolding unmarshal_task
  tasks_unmarshal to_value modules [] = ok []
  tasks_unmarshal to_value modules (raw ∷ rest) =
      and_then (unmarshal_task to_value modules raw)
        (λ t. and_then (tasks_unmarshal to_value modules rest) (λ ts. ok (t ∷ ts)))
