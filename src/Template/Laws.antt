-- ===== src/Template/Laws.antt =====
-- The task `template` fails exactly when its result says so, and settles after one run.
use sophons.Base.{String, Option}
use sophons.Os.{Os}
use sophons.Variables.{Variables}
use sophons.Result.Consistent.{IsConsistent, Reports, run-Reports, consistent_rules}
use sophons.Template.{
  Template, Engine, set_attributes, replace, apply_body, apply, empty_template_result,
}

module _ (os : Os) {Parsed : Type 0} (engine : Engine os.World Parsed) where
  set_attributes-IsConsistent : (c : Template) → IsConsistent (set_attributes os engine c)
  unfolding set_attributes
  set_attributes-IsConsistent c = search consistent_rules depth 10

  replace-IsConsistent :
      (c : Template) (rendered : String) → IsConsistent (replace os engine c rendered)
  unfolding replace
  replace-IsConsistent c rendered = search (consistent_rules, set_attributes-IsConsistent) depth 12

  apply_body-IsConsistent :
      (c : Template) (parent : String) (vars : Option Variables)
      → IsConsistent (apply_body os engine c parent vars)
  unfolding apply_body
  apply_body-IsConsistent c parent vars = search (consistent_rules, replace-IsConsistent) depth 12

  -- The task `template` returns an error exactly when its result says failed.
  pub template-Reports :
      (c : Template) (parent : String) (vars : Option Variables) (w : os.World)
      → Reports (apply os engine c parent vars w)
  unfolding apply
  template-Reports c parent vars w =
      run-Reports (apply_body os engine c parent vars) empty_template_result w
        (apply_body-IsConsistent c parent vars)
