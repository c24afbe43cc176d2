-- ===== src/Apt/Apply.antt =====
-- `Apply` of pkg/exec/apt.go.
use sophons.Base.{
  String, str_eq, Bool, false, ◌&&◌, ◌||◌, none, List, [], ◌∷◌, is_empty, if◌then◌else◌,
}
use sophons.Base.Action.{message, Outcome, Action, wrapping, ◌>>=◌, ◌>>◌, pure}
use sophons.Result.{State, mark_changed, set_extra, fail, query, call, checked, run}
use sophons.Apt.{
  Apt, AptClient, names, apt_absent, apt_latest, apt_present, upgrade_yes, upgrade_full,
  upgrade_dist, upgrade_safe,
}
use sophons.Apt.Cache.{Time, handle_update}

pub record AptResult : Type 0 where
  pub cache_update_time : Time
  pub cache_updated : Bool

abbrev pub empty_apt_result : AptResult
empty_apt_result = record { cache_update_time = none; cache_updated = false }

-- The loop over `installed` for one wanted name.
unfoldable pub is_installed : List String → String → Bool
is_installed [] wanted = false
is_installed (p ∷ installed) wanted = str_eq p wanted || is_installed installed wanted

-- The loop over the wanted names.
unfoldable pub to_install : List String → List String → List String
unfolding is_installed
to_install installed [] = []
to_install installed (wanted ∷ rest) =
    let more = to_install installed rest in
    if is_installed installed wanted then more else wanted ∷ more

module _ {W : Type 0} (client : AptClient W) where
  abbrev pub Task : Type 0 → Type 0
  Task A = Action (State W AptResult) A

  -- if len(packages) > 0
  unfoldable pub install_some : List String → Task (Unit {0})
  install_some packages = if is_empty packages then pure tt else (do
    checked (wrapping "failed to install package list" (call (client.install packages)))
    mark_changed)

  unfoldable pub remove_some : List String → Task (Unit {0})
  remove_some packages = if is_empty packages then pure tt else (do
    checked (wrapping "failed to remove package list" (call (client.remove packages)))
    mark_changed)

  unfoldable pub apply_present : List String → Task (Unit {0})
  unfolding install_some to_install
  apply_present wanted = do
    installed ← checked (wrapping "failed to list installed packages" (query client.list_installed))
    install_some (to_install installed wanted)

  -- The switch over the state.
  unfoldable pub apply_state : String → List String → Task (Unit {0})
  unfolding apply_present remove_some
  apply_state state wanted =
      if str_eq state apt_present
      then apply_present wanted
      else if str_eq state apt_latest
      then install_some wanted
      else if str_eq state apt_absent
      then remove_some wanted
      else fail (message "state is not implemented for apt")

  -- The switch over `upgrade`.
  unfoldable pub apply_upgrade : String → Task (Unit {0})
  apply_upgrade upgrade = if str_eq upgrade "" then pure tt else (do
    if str_eq upgrade upgrade_yes || str_eq upgrade upgrade_safe
        then checked (wrapping "failed to upgrade" (call client.upgrade_all))
        else if str_eq upgrade upgrade_dist || str_eq upgrade upgrade_full
        then checked (wrapping "failed to dist-upgrade" (call client.dist_upgrade))
        else fail (message "unsupported value of upgrade")
    mark_changed)

  abbrev pub actual_state : Apt → String
  actual_state a = if str_eq a.state "" then apt_present else a.state

  abbrev pub only_cleans : Apt → Bool
  only_cleans a =
      is_empty (names a) && (str_eq a.upgrade "no" || str_eq a.upgrade "") && str_eq a.deb ""

  unfoldable pub update : Apt → Task (Unit {0})
  update a = do
    (updated, time) ←
        checked (wrapping "failed to update apt cache" (call (handle_update client a)))
    set_extra (λ r. record r { cache_updated = updated; cache_update_time = time })
    if updated then mark_changed else pure tt

  -- From the computation of actualState on.
  unfoldable pub apply_rest : Apt → Task (Unit {0})
  unfolding update apply_upgrade apply_state
  apply_rest a = do
    update a
    apply_upgrade a.upgrade
    if is_empty (names a) then pure tt else apply_state (actual_state a) (names a)

  unfoldable pub clean : Task (Unit {0})
  clean = do checked (wrapping "failed to clean apt cache" (call client.clean_cache)); mark_changed

  unfoldable pub apply_body : Apt → Task (Unit {0})
  unfolding clean apply_rest
  apply_body a =
      if a.clean then (do clean; if only_cleans a then pure tt else apply_rest a) else apply_rest a

  unfoldable pub apply : Apt → W → Outcome (Unit {0}) × State W AptResult
  unfolding apply_body
  apply a w = run (apply_body a) empty_apt_result w
