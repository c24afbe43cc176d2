-- ===== src/Task/Template.antt =====
-- pkg/exec/util/jinja.go: conditions, and templates that may stand for a list.
use Prim.Native.String.{◌++◌ as append}
use sophons.Base.{
  ℕ, String, str_eq, Bool, true, false, not, ◌&&◌, ◌||◌, Option, none, some, List, [], ◌∷◌, ◌++◌,
  ◌==◌, if◌then◌else◌,
}
use sophons.Base.Text.{codes}
use sophons.Base.Int.{ℤ, is_zero}
use sophons.Base.Number.{atoi}
use sophons.Base.Action.{message, Outcome, ok, err, and_then}
use sophons.Variables.{Any, Items, end, item, null, text, strings, list, Variables}
use sophons.Task.{Jinja}

-- i != 0, where the result is a number
abbrev is_nonzero : Option ℤ → Bool
is_nonzero none = false
is_nonzero (some i) = not (is_zero i)

unfoldable pub is_truthy : String → Bool
is_truthy s =
    if str_eq s "True" || str_eq s "true"
    then true
    else if str_eq s "False" || str_eq s "false"
    then false
    else is_nonzero (atoi (codes s))

-- strings.Contains(s, "{{")
unfoldable pub has_braces : List ℕ → Bool
has_braces [] = false
has_braces (a ∷ []) = false
has_braces (a ∷ b ∷ s) = (a == b'{' && b == b'{') || has_braces (b ∷ s)

abbrev cons : String → Outcome (List String) → Outcome (List String)
cons s rest = and_then rest (λ l. ok (s ∷ l))

-- The loop over the elements of a list value.
unfoldable pub string_items : Items → Outcome (List String)
string_items end = ok []
string_items (item v rest) =
    let more = string_items rest in
    elim v [
      | text s ↦ cons s more
      | _ ↦ err (message "found a non-string value in a jinja list, which is not supported")
    ]

-- A Go slice that may be nil.
abbrev one : Outcome String → Outcome (Option (List String))
one r = and_then r (λ s. ok (some (s ∷ [])))

abbrev some_items : Outcome (List String) → Outcome (Option (List String))
some_items r = and_then r (λ l. ok (some l))

-- `value` is what the template's only node gives.
abbrev pub from_value : Option Any → Outcome String → Outcome (Option (List String))
from_value (some null) rendered = ok none
from_value (some (list items)) rendered = some_items (string_items items)
from_value (some (strings l)) rendered = ok (some l)
from_value _ rendered = one rendered

module _ (jinja : Jinja) where
  -- JinjaProcessWhen
  unfoldable pub process_when : Variables → String → Outcome Bool
  unfolding is_truthy
  process_when vars when =
      if str_eq when ""
      then ok true
      else and_then (jinja.render vars (append (append "{{ " when) " }}"))
          (λ result. ok (is_truthy result))

  -- renderJinjaStringToSlice
  unfoldable pub render_to_slice : Variables → String → Outcome (Option (List String))
  unfolding has_braces string_items
  render_to_slice vars s =
      if str_eq s ""
      then ok (some ("" ∷ []))
      else if not (has_braces (codes s))
      then ok (some (s ∷ []))
      else and_then (jinja.evaluate vars s) λ value. from_value value (jinja.render vars s)

  -- A string field: an empty one is left alone.
  unfoldable pub render_field : Variables → String → Outcome String
  render_field vars s = if str_eq s "" then ok "" else jinja.render vars s

  -- The loop over a slice of strings, with the parts that expand to a list.
  unfoldable pub render_slice : Variables → List String → Outcome (List String)
  unfolding render_to_slice
  render_slice vars [] = ok []
  render_slice vars (s ∷ rest) =
      let more = render_slice vars rest in
      and_then (render_to_slice vars s)
        λ part. elim part [ none ↦ more | some l ↦ and_then more (λ m. ok (l ++ m)) ]

  -- The elements of a slice that an interface holds.
  unfoldable pub render_each : Variables → List String → Outcome (List String)
  unfolding render_field
  render_each vars [] = ok []
  render_each vars (s ∷ rest) =
      let more = render_each vars rest in
      and_then (render_field vars s) λ r. and_then more (λ m. ok (r ∷ m))

-- An interface's value after it has been processed: some values end up behind a new pointer.
pub data Processed : Type 0 where
  plain : Any → Processed
  pointer_to : Any → Processed

abbrev pub from_rendered : String → Option (List String) → Processed
from_rendered s none = plain (text s)
from_rendered s (some []) = pointer_to (text s)
from_rendered s (some (x ∷ [])) = plain (text x)
from_rendered s (some (x ∷ y ∷ rest)) = plain (strings (x ∷ y ∷ rest))

module _ (jinja : Jinja) where
  -- The case of an interface in ProcessJinjaTemplates, for the values that YAML gives.
  unfoldable pub process_any : Variables → Any → Outcome Processed
  unfolding render_to_slice render_each
  process_any vars null = ok (plain null)
  process_any vars (text s) = and_then (render_to_slice jinja vars s) (λ r. ok (from_rendered s r))
  process_any vars (strings l) = and_then (render_each jinja vars l) (λ r. ok (plain (strings r)))
  process_any vars (list items) = ok (plain (list items))
  process_any vars v = ok (pointer_to v)

abbrev from_items : Items → List Any
from_items end = []
from_items (item v rest) = v ∷ from_items rest

abbrev pub texts : List String → List Any
texts [] = []
texts (s ∷ rest) = text s ∷ texts rest

-- task.Loop.([]any), or else task.Loop.([]string)
unfoldable pub loop_values : Processed → Outcome (List Any)
loop_values (plain (list items)) = ok (from_items items)
loop_values (plain (strings l)) = ok (texts l)
loop_values _ = err (message "loop variable is not a list")
