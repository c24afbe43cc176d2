-- ===== src/File/Attributes.antt =====
-- `needsModeOrOwnershipChange` of pkg/exec/file.go.
pub mod Laws
use sophons.Base.{
  ℕ, ◌%◌, ◌^◌, String, str_eq, Bool, true, not, ◌&&◌, Option, none, some, ◌==◌, if◌then◌else◌,
}
use sophons.Base.Int.{ℤ, is_minus_one, to_uint32}
use sophons.Base.Action.{message, Outcome, ok, err, and_then}
use sophons.Os.{Os, StatT}
use sophons.Util.Mode.{
  ModeArg, absent, text, int, int64, uint64, uint64_ptr, other, parse_octal, new_mode_from_spec,
}

abbrev pub sys_of : Option StatT → Outcome StatT
sys_of none = err (message "couldn't get metadata")
sys_of (some st) = ok st

module _ (os : Os) where
  abbrev text_mode : String → String → Option ℕ → os.World → Outcome ℕ
  text_mode path v (some n) w = ok n
  text_mode path v none w = new_mode_from_spec os (os.dir path) path v w

  -- desiredMode. Where the mode gives none it stays 0.
  unfoldable pub desired_mode : String → ModeArg → os.World → Outcome ℕ
  unfolding new_mode_from_spec
  desired_mode path absent w = ok 0
  desired_mode path (text v) w = if str_eq v "" then ok 0 else text_mode path v (parse_octal v) w
  desired_mode path (int v) w = ok (to_uint32 v)
  desired_mode path (int64 v) w = ok (to_uint32 v)
  desired_mode path (uint64 v) w = ok (v % 2 ^ 32)
  desired_mode path (uint64_ptr none) w = ok 0
  desired_mode path (uint64_ptr (some v)) w = ok (v % 2 ^ 32)
  desired_mode path other w = err (message "unsupported mode type")

  abbrev pub differs : ℕ → ℕ → Bool
  differs desired current = not (desired == 0) && not (current == desired)

  abbrev pub id_differs : ℤ → ℕ → Bool
  id_differs id current = not (is_minus_one id) && not (current == to_uint32 id)

  unfoldable pub needs_change : String → ModeArg → ℤ → ℤ → os.World → Outcome Bool
  unfolding desired_mode
  needs_change path mode uid gid w = and_then (os.lstat path w) λ info.
      and_then (sys_of info.sys) λ st. and_then (desired_mode path mode w) λ desired. ok (
        if differs desired info.perm
        then true
        else if id_differs uid st.uid
        then true
        else id_differs gid st.gid)
