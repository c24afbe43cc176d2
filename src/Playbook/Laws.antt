-- ===== src/Playbook/Laws.antt =====
-- Which plays run on a node, and that no play changes what the next one sees.
use sophons.Base.{
  String, ◌≡◌, refl, ap, ◌∙◌, Bool-cases, List, [], ◌∷◌, inl, inr, fun_ext, if◌then◌else◌,
}
use sophons.Base.Dict.{Dict}
use sophons.Base.Action.{Outcome, ok, err, panic, Action, each, ◌>>=◌, continue, wrap}
use sophons.Variables.{Variables, merge}
use sophons.Task.{Shared, Jinja, Contents, Registration}
use sophons.Role.{with_vars}
use sophons.Playbook.{Play, Site, is_target, Run, run_play, load_files, play_apply, plays_apply}

abbrev pub targets : {W : Type 0} → Site W → List Play → List Play
targets site [] = []
targets site (p ∷ plays) =
    let rest = targets site plays in if is_target site p then p ∷ rest else rest

module _ {W C R : Type 0} (jinja : Jinja) (contents : Contents W C R) (types : Dict Registration)
    (site : Site W) where
  -- A run of a playbook is the run of the plays that are for this node or one of its groups.
  pub plays_apply-targets :
      (plays : List Play) (s : Shared W C)
      → plays_apply jinja contents types site plays s
        ≡ plays_apply jinja contents types site (targets site plays) s
  unfolding plays_apply each ◌>>=◌
  plays_apply-targets [] s = refl
  plays_apply-targets (p ∷ plays) s = elim (Bool-cases (is_target site p)) [
    | inl h ↦
        (let (q, s') = play_apply jinja contents types site p s in
          rw (h, h)
            (ap (λ (f : Unit {0} → Run jinja contents types site (Unit {0})). continue q f s')
              (fun_ext λ u. fun_ext λ t. plays_apply-targets plays t)))
    | inr h ↦ rw h (plays_apply-targets plays s)
  ]

  continue-vars :
      {A B : Type 0} (q : Outcome A) (f : A → Action (Shared W C) B) (s s' : Shared W C)
      → s'.vars ≡ s.vars
      → ((a : A) (t : Shared W C) → (f a t).1.vars ≡ t.vars)
      → (continue q f s').1.vars ≡ s.vars
  continue-vars (ok a) f s s' h k = k a s' ∙ h
  continue-vars (err e) f s s' h k = h
  continue-vars panic f s s' h k = h

  load_files-vars :
      (vars : Variables) (files : List String) (s : Shared W C)
      → (load_files jinja contents types site vars files s).1.vars ≡ s.vars
  unfolding load_files ◌>>=◌
  load_files-vars vars [] s = refl
  load_files-vars vars (file ∷ files) s =
      continue-vars (wrap "failed to load vars file for play" (site.load_vars file s.world)) _ s s
        refl λ more t. load_files-vars (merge vars more) files t

  play_apply-vars :
      (p : Play) (s : Shared W C) → (play_apply jinja contents types site p s).1.vars ≡ s.vars
  unfolding play_apply with_vars ◌>>=◌
  play_apply-vars p s =
      let (q, s') =
        load_files jinja contents types site (merge (merge [] s.vars) p.vars) p.vars_files s in
      continue-vars q _ s s' (load_files-vars (merge (merge [] s.vars) p.vars) p.vars_files s)
        λ vars t. refl

  run_play-vars :
      (p : Play) (s : Shared W C) → (run_play jinja contents types site p s).1.vars ≡ s.vars
  unfolding ◌>>=◌
  run_play-vars p s = elim (Bool-cases (is_target site p)) [
    | inl h ↦ rw h (play_apply-vars p s)
    | inr h ↦ rw h refl
  ]

  -- No play changes the variables that the next one starts from, whatever its tasks set.
  pub plays_apply_vars :
      (plays : List Play) (s : Shared W C)
      → (plays_apply jinja contents types site plays s).1.vars ≡ s.vars
  unfolding plays_apply each ◌>>=◌
  plays_apply_vars [] s = refl
  plays_apply_vars (p ∷ plays) s =
      let (q, s') = run_play jinja contents types site p s in
      continue-vars q _ s s' (run_play-vars p s) λ u t. plays_apply_vars plays t
