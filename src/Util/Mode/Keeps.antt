-- ===== src/Util/Mode/Keeps.antt =====
-- What a change of the mode and the ids leaves in place.
use sophons.Base.{ℕ, String, Option, none, some}
use sophons.Base.Int.{ℤ}
use sophons.Base.Action.{Keeps}
use sophons.Os.{Os}
use sophons.Result.Preserves.{Pass, keeps_rules}
use sophons.Util.Mode.{
  ModeArg, absent, text, int, int64, uint64, uint64_ptr, other, apply_mode, apply_mode_and_ids,
  chmod_text, chmod_from_string,
}

module _ (os : Os) (path : String) (P : os.World → Type 0)
    (chmod : (mode : ℕ) → Keeps P Pass (os.chmod path mode))
    (chown : (uid gid : ℤ) → Keeps P Pass (os.chown path uid gid)) where
  chmod_text-Keeps : (v : String) (n : Option ℕ) → Keeps P Pass (chmod_text os path v n)
  unfolding chmod_from_string
  chmod_text-Keeps v none = search (keeps_rules, chmod) depth 4
  chmod_text-Keeps v (some n) = chmod n

  apply_mode-Keeps : (mode : ModeArg) → Keeps P Pass (apply_mode os path mode)
  unfolding apply_mode
  apply_mode-Keeps absent = search keeps_rules depth 4
  apply_mode-Keeps (text v) = search (keeps_rules, chmod_text-Keeps) depth 4
  apply_mode-Keeps (int v) = chmod _
  apply_mode-Keeps (int64 v) = chmod _
  apply_mode-Keeps (uint64 v) = chmod _
  apply_mode-Keeps (uint64_ptr none) = search keeps_rules depth 4
  apply_mode-Keeps (uint64_ptr (some v)) = chmod _
  apply_mode-Keeps other = search keeps_rules depth 4

  pub apply_mode_and_ids-Keeps :
      (mode : ModeArg) (uid gid : ℤ) → Keeps P Pass (apply_mode_and_ids os path mode uid gid)
  unfolding apply_mode_and_ids
  apply_mode_and_ids-Keeps mode uid gid = search (keeps_rules, apply_mode-Keeps, chown) depth 5
