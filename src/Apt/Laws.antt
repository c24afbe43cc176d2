-- ===== src/Apt/Laws.antt =====
-- What the task `apt` reports, installs and refreshes.
use mathlib.Core.Bool.{true≢false}
use sophons.Base.{
  String, ◌↔◌, ◌⊎◌, inl, inr, Bool-cases, ◌≡◌, sym, ◌∙◌, eq_iff, Bool, true, List, [], ◌∷◌, arith,
}
use sophons.Base.Action.{bind-Keeps}
use sophons.Result.Consistent.{IsConsistent, Reports, run-Reports, consistent_rules}
use sophons.Apt.{Apt, AptClient}
use sophons.Apt.Apply.{
  is_installed, to_install, install_some, remove_some, apply_present, apply_state, apply_upgrade,
  update, apply_rest, clean, apply_body, apply, empty_apt_result,
}

module _ {W : Type 0} (client : AptClient W) where
  install_some-IsConsistent : (packages : List String) → IsConsistent (install_some client packages)
  unfolding install_some
  install_some-IsConsistent packages = search consistent_rules depth 7

  remove_some-IsConsistent : (packages : List String) → IsConsistent (remove_some client packages)
  unfolding remove_some
  remove_some-IsConsistent packages = search consistent_rules depth 7

  apply_present-IsConsistent : (wanted : List String) → IsConsistent (apply_present client wanted)
  unfolding apply_present
  apply_present-IsConsistent wanted =
      bind-Keeps _ _ (search consistent_rules depth 6) λ installed. install_some-IsConsistent _

  apply_state-IsConsistent :
      (state : String) (wanted : List String) → IsConsistent (apply_state client state wanted)
  unfolding apply_state
  apply_state-IsConsistent state wanted =
      search
        (
          consistent_rules, install_some-IsConsistent, remove_some-IsConsistent,
          apply_present-IsConsistent,
        )
        depth 7

  apply_upgrade-IsConsistent : (upgrade : String) → IsConsistent (apply_upgrade client upgrade)
  unfolding apply_upgrade
  apply_upgrade-IsConsistent upgrade = search consistent_rules depth 9

  update-IsConsistent : (a : Apt) → IsConsistent (update client a)
  unfolding update
  update-IsConsistent a = search consistent_rules depth 8

  clean-IsConsistent : IsConsistent (clean client)
  unfolding clean
  clean-IsConsistent = search consistent_rules depth 7

  apply_rest-IsConsistent : (a : Apt) → IsConsistent (apply_rest client a)
  unfolding apply_rest
  apply_rest-IsConsistent a =
      search
        (
          consistent_rules, update-IsConsistent, apply_upgrade-IsConsistent,
          apply_state-IsConsistent,
        )
        depth 8

  apply_body-IsConsistent : (a : Apt) → IsConsistent (apply_body client a)
  unfolding apply_body
  apply_body-IsConsistent a =
      search (consistent_rules, clean-IsConsistent, apply_rest-IsConsistent) depth 8

  -- The task `apt` returns an error exactly when its result has `failed` set.
  pub apt-Reports : (a : Apt) (w : W) → Reports (apply client a w)
  unfolding apply
  apt-Reports a w = run-Reports (apply_body client a) empty_apt_result w (apply_body-IsConsistent a)

-- A name is in a list.
abbrev pub In : String → List String → Type 0
In p [] = ⊥
In p (q ∷ l) = (q ≡ p) ⊎ In p l

is_installed_iff : (l : List String) (p : String) → (is_installed l p ≡ true) ↔ In p l
unfolding is_installed
is_installed_iff [] p = ground arith
is_installed_iff (q ∷ l) p = ground (arith, is_installed_iff l p, eq_iff q p)

-- The packages that `state: present` hands to the package manager are exactly those that are wanted
-- and not among the installed ones.
pub to_install_iff :
    (installed wanted : List String) (p : String)
    → In p (to_install installed wanted) ↔ (In p wanted × ¬ In p installed)
unfolding to_install
to_install_iff installed [] p = (λ i. absurd i, λ i. absurd i.0)
to_install_iff installed (w ∷ wanted) p =
    let rest = to_install_iff installed wanted p in
    elim (Bool-cases (is_installed installed w)) [
      | inl h ↦ rw h (
        λ i. let q = rest.0 i in (inr q.0, q.1),
        λ i. elim i.0 [
          | inl e ↦ absurd (i.1 ((is_installed_iff installed p).0 (rw e at h)))
          | inr m ↦ rest.1 (m, i.1)
        ],
      )
      | inr h ↦ rw h (
        λ i. elim i [
          | inl e ↦
              (inl e, λ q. true≢false (sym ((is_installed_iff installed p).1 q) ∙ (rw e at h)))
          | inr m ↦ (let q = rest.0 m in (inr q.0, q.1))
        ],
        λ i. elim i.0 [ inl e ↦ inl e | inr m ↦ inr (rest.1 (m, i.1)) ],
      )
    ]
