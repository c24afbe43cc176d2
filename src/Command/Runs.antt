-- ===== src/Command/Runs.antt =====
-- pkg/exec/command_executor.go and command.go: what a task `command` asks for, as relations beside
-- the code.
use sophons.Base.{
  ℕ, String, str_eq, ◌≡◌, refl, ap, ◌≢◌, eq_iff, Bool, true, false, not, Option, none, some, List,
  [], ◌∷◌, ◌++◌, map, is_empty, arith, ◌⊎◌, inl, inr, if◌then◌else◌,
}
use sophons.Base.Int.{ℤ, pos, minus_one}
use sophons.Base.Text.{codes, fields}
use sophons.Base.Action.{Outcome, ok}
use sophons.Os.{Os}
use sophons.Command.{Executor, Params, Cmd, RunError, should_apply, prepare, rc_of, wants_newline}
use sophons.Command.Apply.{words, first_word}

-- The directory that the process is started in.
pub data Directory (chdir : String) : Option String → Type 0 where
  unchanged : chdir ≡ "" → Directory chdir none
  changed_to : chdir ≢ "" → Directory chdir (some chdir)

-- What the process reads: a newline follows unless `stdin_add_newline` is false.
pub data Input (text : String) (add : Option Bool) : Option (List ℕ) → Type 0 where
  no_input : text ≡ "" → Input text add none
  as_given : text ≢ "" → add ≡ some false → Input text add (some (codes text))
  with_newline : text ≢ "" → add ≢ some false → Input text add (some (codes text ++ (10 ∷ [])))

-- The exit code: 0 without an error, and -1 for an error that has none.
pub data Exit : Option RunError → ℤ → Type 0 where
  success : Exit none (pos 0)
  exited : {e : RunError} {code : ℤ} → e.exit_code ≡ some code → Exit (some e) code
  not_started : {e : RunError} → e.exit_code ≡ none → Exit (some e) minus_one

abbrev pub Asks : Params → List ℕ → List (List ℕ) → Cmd → Type 0
Asks p name args cmd =
    (cmd.name ≡ name)
    × (cmd.args ≡ args)
    × Directory p.chdir cmd.dir
    × Input p.stdin p.stdin_add_newline cmd.stdin

code-Exit :
    (e : RunError) (c : Option ℤ)
    → e.exit_code ≡ c
    → Exit (some e) (elim c [ none ↦ minus_one | some code ↦ code ])
code-Exit e none h = not_started h
code-Exit e (some code) h = exited h

pub rc_of-Exit : (e : Option RunError) → Exit e (rc_of e)
rc_of-Exit none = success
rc_of-Exit (some e) = code-Exit e e.exit_code refl

not_empty : (s : String) → s ≢ "" → str_eq s "" ≡ false
not_empty s h = ground (arith, eq_iff s "")

is_empty_text : (s : String) → s ≡ "" → str_eq s "" ≡ true
is_empty_text s h = (eq_iff s "").1 h

empty-cases : (s : String) → ((s ≡ "") × (str_eq s "" ≡ true)) ⊎ ((s ≢ "") × (str_eq s "" ≡ false))
empty-cases s = ground (arith, eq_iff s "")

Directory-cases : (chdir : String) → Directory chdir (if str_eq chdir "" then none else some chdir)
Directory-cases chdir = elim (empty-cases chdir) [
  | inl (e, h) ↦ rw h (unchanged e)
  | inr (e, h) ↦ rw h (changed_to e)
]

added_text :
    (text : String) (add : Option Bool)
    → text ≢ ""
    → Input text add (some (if wants_newline add then codes text ++ (10 ∷ []) else codes text))
added_text text none given = with_newline given (λ e. cc)
added_text text (some true) given = with_newline given (λ e. cc)
added_text text (some false) given = as_given given refl

Input-cases :
    (text : String) (add : Option Bool)
    → Input text add (
        if str_eq text ""
        then none
        else some (if wants_newline add then codes text ++ (10 ∷ []) else codes text))
Input-cases text add = elim (empty-cases text) [
  | inl (e, h) ↦ rw h (no_input e)
  | inr (e, h) ↦ rw h (added_text text add e)
]

pub prepare-Asks :
    (p : Params) (name : List ℕ) (args : List (List ℕ))
    → Asks p name args (prepare p.chdir p.stdin p.stdin_add_newline name args)
unfolding prepare
prepare-Asks p name args =
    (refl, refl, Directory-cases p.chdir, Input-cases p.stdin p.stdin_add_newline)

module _ (os : Os) (x : Executor os.World) where
  -- A text with its variables replaced where that is asked for.
  abbrev pub expanded_text : Bool → os.World → String → String
  expanded_text expand w s = if expand then x.expand_env s w else s

  -- The words of the command line: the fields of `cmd`, or the elements of `argv`.
  pub data Line (p : Params) (expand : Bool) (w : os.World) (name : List ℕ) (args : List (List ℕ))
      : Type 0 where
    from_cmd :
        p.cmd ≢ ""
        → fields (codes (expanded_text expand w p.cmd)) ≡ name ∷ args
        → Line p expand w name args
    from_argv :
        p.cmd ≡ ""
        → map (λ arg. codes (expanded_text expand w arg)) p.argv ≡ name ∷ args
        → Line p expand w name args

  -- Whether the task may run: with `creates` where the pattern finds nothing, else with `removes`
  -- where it finds something, and always without either.
  pub data Allowed (p : Params) (w : os.World) : Bool → Type 0 where
    creates_nothing :
        {found : List String}
        → p.creates ≢ ""
        → os.glob p.creates w ≡ ok found
        → Allowed p w (is_empty found)
    removes_some :
        {found : List String}
        → p.creates ≡ ""
        → p.removes ≢ ""
        → os.glob p.removes w ≡ ok found
        → Allowed p w (not (is_empty found))
    always : p.creates ≡ "" → p.removes ≡ "" → Allowed p w true

  argv-words :
      (argv : List String) (f : String → List ℕ) (name : List ℕ) (args : List (List ℕ))
      → map f argv ≡ name ∷ args
      → ◌≡◌ {A = Outcome (List ℕ × List (List ℕ))}
          (elim argv [ [] ↦ ok ([], []) | a ∷ argv' ↦ first_word (map f (a ∷ argv')) ])
          (ok (name, args))
  unfolding first_word
  argv-words [] f name args h = cc
  argv-words (a ∷ argv) f name args h = ap first_word h

  pub words-Line :
      (p : Params) (expand : Bool) (w : os.World) (name : List ℕ) (args : List (List ℕ))
      → Line p expand w name args
      → words os x p expand w ≡ ok (name, args)
  unfolding words first_word
  words-Line p expand w name args (from_cmd given e) = rw (not_empty p.cmd given, e) refl
  words-Line p expand w name args (from_argv given e) =
      rw (is_empty_text p.cmd given) (argv-words p.argv _ name args e)

  pub should_apply-Allowed :
      (p : Params) (w : os.World) (go : Bool)
      → Allowed p w go
      → should_apply os p.creates p.removes w ≡ ok go
  unfolding should_apply
  should_apply-Allowed p w go (creates_nothing given found) = ground (arith, eq_iff p.creates "")
  should_apply-Allowed p w go (removes_some absent given found) =
      ground (arith, eq_iff p.creates "", eq_iff p.removes "")
  should_apply-Allowed p w go (always absent no_removes) =
      ground (arith, eq_iff p.creates "", eq_iff p.removes "")
