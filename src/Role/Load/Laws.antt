-- ===== src/Role/Load/Laws.antt =====
-- The variables that a directory `main` gives.
use sophons.Base.{
  String, ◌≡◌, refl, sym, ap, ◌∙◌, true, false, Bool-cases, Option, none, some, Option-cases, List,
  [], ◌∷◌, inl, inr,
}
use sophons.Base.Dict.{lookup, or_else, lookup-copy}
use sophons.Base.Action.{Outcome, ok, err, panic, and_then, and_then-ok, err≢ok, ok-injective}
use sophons.Variables.{Any, Variables, merge}
use sophons.Role.Load.{Files, Walked, merge_walked}

or_else_assoc : {A : Type 0} (a b c : Option A) → or_else (or_else a b) c ≡ or_else a (or_else b c)
or_else_assoc none b c = refl
or_else_assoc (some a) b c = refl

-- The variable in one file, which is what a file that cannot be read does not have.
abbrev in_file : String → Outcome Variables → Option Any
in_file k (ok vars) = lookup k vars
in_file k (err e) = none
in_file k panic = none

module _ (fs : Files) where
  abbrev parsed : Walked → Outcome Variables
  parsed entry = and_then (fs.read_file entry.path) fs.parse_vars

  abbrev in_entry : String → Walked → Option Any
  in_entry k entry = elim entry.dir [ true ↦ none | false ↦ in_file k (parsed entry) ]

  -- The variable in the last file that has it.
  abbrev pub in_last : String → List Walked → Option Any
  in_last k [] = none
  in_last k (entry ∷ entries) = or_else (in_last k entries) (in_entry k entry)

  -- Where the files below `main` can all be read, the last one in the order of the walk that sets a
  -- variable wins, however deep it is nested, and what none of them sets stays as it was.
  pub merge_walked_value :
      (vars : Variables) (entries : List Walked) (k : String) (v : Variables)
      → merge_walked fs vars entries ≡ ok v
      → lookup k v ≡ or_else (in_last k entries) (lookup k vars)
  unfolding merge_walked
  merge_walked_value vars [] k v h = ap (lookup k) (sym (ok-injective h))
  merge_walked_value vars (entry ∷ entries) k v h = elim (Option-cases entry.error) [
    | inr (e, he) ↦ absurd (err≢ok {e = e} (rw he at h))
    | inl he ↦ elim (Bool-cases entry.dir) [
      | inl d ↦ rw d (
          merge_walked_value vars entries k v (rw (he, d) at h)
          ∙ sym (or_else_assoc (in_last k entries) none (lookup k vars)))
      | inr d ↦
          (let (content, r, h1) = and_then-ok (fs.read_file entry.path) _ (rw (he, d) at h) in
            let (file_vars, q, h2) = and_then-ok (fs.parse_vars content) _ h1 in
            rw (d, r, q)
              (merge_walked_value (merge vars file_vars) entries k v h2
                ∙ ap (or_else (in_last k entries)) (lookup-copy k vars file_vars)
                ∙ sym (or_else_assoc (in_last k entries) (lookup k file_vars) (lookup k vars))))
    ]
  ]
