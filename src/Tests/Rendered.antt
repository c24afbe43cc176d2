-- ===== src/Tests/Rendered.antt =====
-- Contents whose fields are rendered by an engine that knows one template, `{{ who }}`.
use sophons.Base.{
  ◌≡◌, refl, sym, String, str_eq, Bool, true, false, not, if◌then◌else◌, Option, none, some, [],
  ◌∷◌,
}
use sophons.Base.Text.{codes}
use sophons.Base.Dict.{lookup}
use sophons.Base.Action.{message, Outcome, ok, err, ok-injective}
use sophons.Variables.{Any, text, Variables}
use sophons.Task.{Jinja}
use sophons.Task.Template.{has_braces}
use sophons.Task.Process.{
  Value, string, strings, struct, pointer, held_pointer, unexported, plain, interface, Fields, end,
  field, process,
}
use sophons.Task.Process.Strings.{IsPlain, GivesText, RendersPlain}
use sophons.Task.Process.Laws.{StopsAt, process_fields-StopsAt}
use sophons.Task.Process.Twice.{process_again}

abbrev value_of : Option Any → Outcome String
value_of (some (text s)) = ok s
value_of v = err (message "undefined")

abbrev greeter : Jinja
greeter = record {
  render = λ vars s.
      if not (has_braces (codes s))
      then ok s
      else if str_eq s "{{ who }}"
      then value_of (lookup "who" vars)
      else err (message "unknown template");
  evaluate = λ vars s. ok none;
}

abbrev web : Variables
web = ("who", text "web1") ∷ []

abbrev db : Variables
db = ("who", text "db1") ∷ []

web1-IsPlain : IsPlain greeter "web1"
unfolding has_braces
web1-IsPlain = (refl, λ vars. refl)

rendered-IsPlain :
    (braced known : Bool) (s r : String)
    → has_braces (codes s) ≡ braced
    → (if not braced
        then ok s
        else if known
        then value_of (lookup "who" web)
        else err (message "unknown template"))
      ≡ ok r
    → IsPlain greeter r
unfolding lookup
rendered-IsPlain false known s r b h = rw (sym (ok-injective h)) (b, λ vars. rw b refl)
rendered-IsPlain true true s r b h = rw (sym (ok-injective h)) web1-IsPlain
rendered-IsPlain true false s r b h = cc

greeter-RendersPlain : (s : String) → RendersPlain greeter web s
greeter-RendersPlain s r h =
    rendered-IsPlain (has_braces (codes s)) (str_eq s "{{ who }}") s r refl h

greeter-GivesText : (s : String) → GivesText greeter web s
greeter-GivesText s = record {
  rendered = greeter-RendersPlain s;
  listed = λ items l h e. cc;
  given = λ l h. cc;
}

-- A pointer to a message, in a member of a oneof.
abbrev content : Value
content = pointer (
    struct (
      field (unexported (string "{{ who }}")) (
        field (plain (string "{{ who }}")) (
          field (plain (strings ("a" ∷ "{{ who }}" ∷ [])))
            (field (interface (held_pointer (string "x"))) end)))))

abbrev rendered_content : Value
rendered_content = pointer (
    struct (
      field (unexported (string "{{ who }}")) (
        field (plain (string "web1")) (
          field (plain (strings ("a" ∷ "web1" ∷ [])))
            (field (interface (held_pointer (string "x"))) end)))))

process_again_example : process greeter db rendered_content ≡ (ok tt, rendered_content)
unfolding process has_braces lookup
process_again_example =
    process_again greeter web content rendered_content db
      (
        tt,
        (
          greeter-RendersPlain "{{ who }}",
          ((greeter-GivesText "a", (greeter-GivesText "{{ who }}", tt)), (tt, tt)),
        ),
      )
      refl

-- The second of three fields has a template that the engine does not know.
abbrev three : String → Fields
three s =
    field (plain (string s))
      (field (plain (string "{{ bad }}")) (field (plain (string "{{ who }}")) end))

process_fields-StopsAt_example :
    StopsAt greeter web (message "unknown template") (three "{{ who }}") (three "web1")
unfolding process has_braces lookup
process_fields-StopsAt_example =
    process_fields-StopsAt greeter web (three "{{ who }}") (message "unknown template")
      (three "web1") refl
