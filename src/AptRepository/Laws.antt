-- ===== src/AptRepository/Laws.antt =====
-- What the task `apt_repository` reports, the names of its files, and when it does nothing.
use mathlib.Core.Bool.{true≢false}
use sophons.Base.{
  ℕ, str_eq, ◌≡◌, refl, Bool, true, false, not, ◌||◌, Option, none, some, String, List, [], ◌∷◌,
  ◌++◌, ◌==◌, is_some, Bool-cases, inl, inr, sym, ap, if◌then◌else◌,
}
use sophons.Base.Text.{All, codes}
use sophons.Base.Action.{ok, ok-injective, wrap, and_then-ok, bind-Keeps, pure, ◌>>=◌}
use sophons.Result.{checked, empty_result}
use sophons.Result.Consistent.{IsConsistent, Reports, run-Reports, consistent_rules}
use sophons.AptRepository.{
  AptRepository, RepositoryClient, Task, is_alphanumeric, slug, uri_to_filename, remove_found,
  add_missing, update_cache, change, apply_body, apply,
}

abbrev pub is_safe : ℕ → Bool
is_safe c = is_alphanumeric c || c == b'_'

slug_safe : (inside : Bool) (s : List ℕ) → All (λ c. is_safe c ≡ true) (slug inside s)
unfolding slug
slug_safe inside [] = tt
slug_safe inside (c ∷ s) = elim (Bool-cases (is_alphanumeric c)) [
  | inl h ↦ rw h (rw h refl, slug_safe false s)
  | inr h ↦ elim (Bool-cases inside) [
    | inl k ↦ rw (h, k) (slug_safe true s)
    | inr k ↦ rw (h, k) (refl, slug_safe true s)
  ]
]

module _ {W Repository : Type 0} (client : RepositoryClient W Repository) where
  -- The file name that is made from a URL is letters, digits and underscores only, and then
  -- ".list", so that it names a file of the folder itself.
  pub uri_to_filename_safe :
      (uri : String) (name : List ℕ)
      → uri_to_filename client uri ≡ ok name
      → (stem : List ℕ) × (name ≡ stem ++ codes ".list") × All (λ c. is_safe c ≡ true) stem
  unfolding uri_to_filename
  uri_to_filename_safe uri name h =
      let ((host, path), parsed, e) =
        and_then-ok (wrap "failed to parse repository URL" (client.parse_url uri)) _ h in
      (slug false (host ++ path), sym (ok-injective e), slug_safe false (host ++ path))

  remove_found-IsConsistent : (found : Option Repository) → IsConsistent (remove_found client found)
  unfolding remove_found
  remove_found-IsConsistent none = search consistent_rules depth 7
  remove_found-IsConsistent (some r) = search consistent_rules depth 7

  add_missing-IsConsistent :
      (repo : Repository) (found : Option Repository) → IsConsistent (add_missing client repo found)
  unfolding add_missing
  add_missing-IsConsistent repo none = search consistent_rules depth 8
  add_missing-IsConsistent repo (some r) = search consistent_rules depth 7

  update_cache-IsConsistent : (a : AptRepository) → IsConsistent (update_cache client a)
  unfolding update_cache
  update_cache-IsConsistent a = search consistent_rules depth 8

  change-IsConsistent :
      (a : AptRepository) (repositories : List Repository) (repo : Option Repository)
      → IsConsistent (change client a repositories repo)
  unfolding change
  change-IsConsistent a repositories none = search consistent_rules depth 7
  change-IsConsistent a repositories (some repo) =
      search (consistent_rules, remove_found-IsConsistent, add_missing-IsConsistent) depth 7

  apply_body-IsConsistent : (a : AptRepository) → IsConsistent (apply_body client a)
  unfolding apply_body
  apply_body-IsConsistent a = bind-Keeps _ _ (search consistent_rules depth 7) λ repositories.
      bind-Keeps _ _ (change-IsConsistent a repositories _) λ u. update_cache-IsConsistent a

  -- The task `apt_repository` returns an error exactly when its result has `failed` set.
  pub apt_repository-Reports : (a : AptRepository) (w : W) → Reports (apply client a w)
  unfolding apply
  apt_repository-Reports a w = run-Reports (apply_body client a) tt w (apply_body-IsConsistent a)

  change_nothing :
      (absent : Bool) (repo : Repository) (found : Option Repository)
      → is_some found ≡ not absent
      → (if absent then remove_found client found else add_missing client repo found) ≡ pure tt
  unfolding remove_found add_missing
  change_nothing true repo none h = refl
  change_nothing true repo (some r) h = absurd (true≢false h)
  change_nothing false repo none h = absurd (true≢false (sym h))
  change_nothing false repo (some r) h = refl

  -- A repository that is already in the state that is asked for, present or absent, is left alone:
  -- without a cache update the machine and the result stay as they were.
  pub apt_repository_in_place :
      (a : AptRepository) (w : W) (repositories : List Repository) (repo : Repository)
      → client.parse_config_folder w ≡ ok repositories
      → client.parse_config_line a.repo ≡ some repo
      → is_some (client.find repositories repo) ≡ not (str_eq a.state "absent")
      → a.update_cache ≡ some false
      → apply client a w ≡ (ok tt, record { world = w; common = empty_result; extra = tt })
  unfolding apply update_cache ◌>>=◌ checked
  apt_repository_in_place a w repositories repo folder line in_place no_update =
      simp (folder, line, no_update)
        (ap
          (λ (m : Task client (Unit {0})).
            (m >>= (λ u. pure tt)) (record { world = w; common = empty_result; extra = tt }))
          (change_nothing (str_eq a.state "absent") repo (client.find repositories repo) in_place))
