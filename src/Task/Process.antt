-- ===== src/Task/Process.antt =====
-- pkg/exec/util/jinja.go: ProcessJinjaTemplates, which renders the fields of a content in place.
pub mod Laws
pub mod Strings
pub mod Twice
use sophons.Base.{String, Option, none, some, List, [], ◌∷◌}
use sophons.Base.Action.{Outcome, ok, err, panic, Action}
use sophons.Variables.{Any, Variables}
use sophons.Task.{Jinja}
use sophons.Task.Template.{render_field, render_slice, render_to_slice}

-- What reflection shows of a content. `others` is a slice of anything but strings, and `scalar` is
-- a value of any other kind: a number, a Boolean, a map. Slices of a type of their own, pointers to
-- one place, and structs that an interface holds without a pointer do not occur in a content.
mutual
  pub data Value : Type 0 where
    string : String → Value
    strings : List String → Value
    others : Any → Value
    scalar : Any → Value
    struct : Fields → Value
    nil : Value
    pointer : Value → Value

  pub data Held : Type 0 where
    held_string : String → Held
    held_strings : List String → Held
    held_others : Any → Held
    held_scalar : Any → Held
    held_nil : Held
    held_pointer : Value → Held

  pub data Field : Type 0 where
    unexported : Value → Field
    plain : Value → Field
    nil_interface : Field
    interface : Held → Field

  pub data Fields : Type 0 where
    end : Fields
    field : Field → Fields → Fields

-- Processing gives an error, if any, and what is there afterwards.
abbrev pub Processing : Type 0 → Type 0
Processing A = Outcome (Unit {0}) × A

-- A place is set where its new value was computed.
abbrev pub set {ℓ} : {R : Type ℓ} {A : Type 0} → Outcome R → (R → A) → A → Processing A
set (ok r) place old = (ok tt, place r)
set (err e) place old = (err e, old)
set panic place old = (panic, old)

abbrev pub inside : {A B : Type 0} → (A → B) → Processing A → Processing B
inside place r = (r.0, place r.1)

-- The fields after one: they are left alone where it failed.
abbrev pub next : Processing Field → Fields → Processing Fields → Processing Fields
next (ok done, f) fs rest = (rest.0, field f rest.1)
next (err e, f) fs rest = (err e, field f fs)
next (panic, f) fs rest = (panic, field f fs)

-- `rendered` is nil, a list of two elements or more, one element, or empty.
abbrev pub held_rendered : String → Option (List String) → Held
held_rendered s none = held_string s
held_rendered s (some []) = held_pointer (string s)
held_rendered s (some (x ∷ [])) = held_string x
held_rendered s (some (x ∷ y ∷ rest)) = held_strings (x ∷ y ∷ rest)

abbrev pub next_string :
    Processing String → List String → Processing (List String) → Processing (List String)
next_string (ok done, s) l rest = (rest.0, s ∷ rest.1)
next_string (err e, s) l rest = (err e, s ∷ l)
next_string (panic, s) l rest = (panic, s ∷ l)

module _ (jinja : Jinja) (vars : Variables) where
  -- The elements of a slice that an interface holds are set one by one.
  unfoldable pub render_in_place : List String → Processing (List String)
  unfolding render_field
  render_in_place [] = (ok tt, [])
  render_in_place (s ∷ l) =
      next_string (set (render_field jinja vars s) (λ r. r) s) l (render_in_place l)

  unfoldable mutual
    unfolding render_field render_slice render_to_slice render_in_place

    -- ProcessJinjaTemplates
    pub process : Value → Processing Value
    process (pointer v) = inside pointer (process v)
    process (struct fs) = inside struct (process_fields fs)
    process v = (ok tt, v)

    pub process_fields : Fields → Processing Fields
    process_fields end = (ok tt, end)
    process_fields (field f fs) = next (process_field f) fs (process_fields fs)

    pub process_field : Field → Processing Field
    process_field (unexported v) = (ok tt, unexported v)
    process_field (plain v) = inside plain (process_value v)
    process_field nil_interface = (ok tt, nil_interface)
    process_field (interface h) = inside interface (process_held h)

    -- The kinds of a field that is not an interface.
    pub process_value : Value → Processing Value
    process_value (string s) = set (render_field jinja vars s) string (string s)
    process_value (strings l) = set (render_slice jinja vars l) strings (strings l)
    process_value (struct fs) = inside struct (process_fields fs)
    process_value (pointer v) = inside pointer (process_element v)
    process_value v = (ok tt, v)

    -- What a field points to.
    pub process_element : Value → Processing Value
    process_element (string s) = set (render_field jinja vars s) string (string s)
    process_element (strings l) = set (render_slice jinja vars l) strings (strings l)
    process_element (struct fs) = inside struct (process_fields fs)
    process_element v = (ok tt, v)

    -- What an interface holds: a scalar ends behind a new pointer.
    pub process_held : Held → Processing Held
    process_held (held_string s) =
        set (render_to_slice jinja vars s) (held_rendered s) (held_string s)
    process_held (held_strings l) = inside held_strings (render_in_place l)
    process_held (held_others a) = (ok tt, held_others a)
    process_held (held_scalar a) = (ok tt, held_pointer (scalar a))
    process_held held_nil = (ok tt, held_nil)
    process_held (held_pointer v) = inside held_pointer (process v)
