-- ===== src/Task.antt =====
-- pkg/exec/task.go and pkg/exec/util/jinja.go: a task as the executer sees it, and what tasks share
-- while they run.
pub mod Template
pub mod Process
pub mod Execute
pub mod Laws
pub mod Honest
pub mod FileContents
use Prim.Native.Nat.{zero, suc}
use sophons.Base.{ℕ, ◌+◌, String, Bool, Option, none, some, List, [], ◌∷◌}
use sophons.Base.Dict.{lookup, Dict}
use sophons.Base.Action.{Error, message, Outcome, ok, err, panic, Action}
use sophons.Variables.{Any, null, Variables}
use sophons.Result.{CommonResult}

-- What tasks share: the machine, the variables of the context, which main always puts there and
-- which are one map behind a pointer, and the contents of tasks, which tasks point to.
pub record Shared (W C : Type 0) : Type 0 where
  pub world : W
  pub vars : Variables
  pub heap : List C

-- The template engine, github.com/nikolalohinski/gonja. `evaluate` gives the value of a template
-- that is one output node and nothing else.
pub record Jinja : Type 0 where
  pub render : Variables → String → Outcome String
  pub evaluate : Variables → String → Outcome (Option Any)

-- The interfaces TaskContent and Result, the processing of a content's own fields, and YAML.
pub record Contents (W C R : Type 0) : Type 0 where
  pub validate : C → Outcome (Unit {0})
  pub apply : C → String → Bool → Action (Shared W C) R
  pub process : Variables → C → C × Option Error
  pub clone : C → C
  pub common : R → CommonResult
  pub of_common : CommonResult → R
  pub to_map : R → Outcome Any
  pub loop_to_map : CommonResult → List R → Outcome Any

-- Task. Nil is `none`, and a content is the position of what it points to.
pub record Task : Type 0 where
  pub name : String
  pub when : String
  pub loop : Option Any
  pub content : Option ℕ
  pub register : String

-- The member of the oneof that holds the content, by its type's name.
pub record ProtoContent : Type 0 where
  pub kind : String
  pub position : ℕ

pub record ProtoTask : Type 0 where
  pub name : String
  pub when : String
  pub loop : Option Any
  pub content : Option ProtoContent
  pub register : String

-- TaskRegistration: the adapter gives `none` for a content of another type.
pub record Registration : Type 0 where
  pub exec_adapter : Option (ProtoContent → Option ℕ)

-- A loop that YAML gives as null is none: AsInterface makes it nil.
abbrev loop_of : Option Any → Option Any
loop_of (some null) = none
loop_of loop = loop

abbrev with_content : ProtoTask → Option ℕ → Task
with_content p c = record {
  name = p.name;
  when = p.when;
  loop = loop_of p.loop;
  content = c;
  register = p.register;
}

abbrev adapted : ProtoTask → Option ℕ → Outcome Task
adapted p none = err (message "exec adapter returned non-TaskContent type")
adapted p (some i) = ok (with_content p (some i))

abbrev converted : ProtoTask → ProtoContent → Option Registration → Outcome Task
converted p c none = err (message "unknown proto content type: not registered")
converted p c (some reg) = elim reg.exec_adapter [
  | none ↦ err (message "no exec adapter registered for type")
  | some adapter ↦ adapted p (adapter c)
]

-- FromProto
unfoldable pub from_proto : Dict Registration → ProtoTask → Outcome Task
from_proto types p = elim p.content [
  | none ↦ ok (with_content p none)
  | some c ↦ converted p c (lookup c.kind types)
]

module _ {ℓ} {A : Type ℓ} where
  -- *p; a nil pointer panics.
  unfoldable pub at : ℕ → List A → Outcome A
  at i [] = panic
  at zero (x ∷ xs) = ok x
  at (suc i) (x ∷ xs) = at i xs

  -- *p = x
  unfoldable pub put : ℕ → A → List A → List A
  put i x [] = []
  put zero x (y ∷ ys) = x ∷ ys
  put (suc i) x (y ∷ ys) = y ∷ put i x ys

  abbrev pub deref : Option ℕ → List A → Outcome A
  deref none xs = panic
  deref (some i) xs = at i xs

  abbrev pub length : List A → ℕ
  length [] = 0
  length (x ∷ xs) = length xs + 1
