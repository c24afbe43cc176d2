-- ===== src/Role/Laws.antt =====
-- Which variables the tasks of a role see, and which the rest of the play sees after it.
use sophons.Base.{String, ◌≡◌, [], arith}
use sophons.Base.Dict.{Dict, lookup, or_else, lookup-copy}
use sophons.Base.Action.{Outcome, ok, err, panic}
use sophons.Variables.{Variables, merge}
use sophons.Role.{Role, role_vars}

-- The tasks of a role see the role's variables, then those of the play, then the role's defaults.
pub role_vars_value :
    (r : Role) (play : Variables) (k : String)
    → lookup k (role_vars r play)
      ≡ or_else (lookup k r.vars) (or_else (lookup k play) (lookup k r.defaults))
unfolding role_vars lookup
role_vars_value r play k = ground (
  arith,
  lookup-copy k (merge (merge [] r.defaults) play) r.vars,
  lookup-copy k (merge [] r.defaults) play,
  lookup-copy k [] r.defaults,
)

-- The variables of the play after a role: its own are added where all its tasks succeeded.
abbrev pub vars_after : Outcome (Unit {0}) → Variables → Role → Variables
vars_after (ok u) vars r = merge vars r.vars
vars_after (err e) vars r = vars
vars_after panic vars r = vars
