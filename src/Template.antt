-- ===== src/Template.antt =====
-- pkg/exec/template.go: the task `template`.
pub mod Laws
pub mod Settles
use sophons.Base.{
  ℕ, String, str_eq, Bool, true, false, not, ◌&&◌, ◌||◌, List, [], ◌∷◌, Option, none, some, is_some,
  if◌then◌else◌,
}
use sophons.Base.Int.{ℤ, is_minus_one, to_uint64}
use sophons.Base.Number.{octal_digits}
use sophons.Base.Action.{
  Error, message, is_not_exist, Outcome, ok, err, panic, Action, wrap, wrapping, and_then, pure,
  ◌>>=◌, ◌>>◌,
}
use sophons.Variables.{Variables}
use sophons.Os.{Os, FileInfo}
use sophons.Util.{get_uid, get_gid}
use sophons.Util.Mode.{ModeArg, absent, text, apply_mode_and_ids}
use sophons.Result.{State, mark_changed, mark_skipped, set_extra, query, call, checked, run}

-- proto.Template: the parameters that the task reads. `mode` is the value of the message Mode.
pub record Template : Type 0 where
  pub src : String
  pub dest : String
  pub owner : String
  pub group : String
  pub mode : Option String

-- The fields of TemplateResult. `mode` holds code points.
pub record TemplateResult : Type 0 where
  pub checksum : String
  pub dest : String
  pub gid : ℕ
  pub group : String
  pub md5_sum : String
  pub mode : List ℕ
  pub owner : String
  pub size : ℕ
  pub uid : ℕ

abbrev pub empty_template_result : TemplateResult
empty_template_result = record {
  checksum = "";
  dest = "";
  gid = 0;
  group = "";
  md5_sum = "";
  mode = [];
  owner = "";
  size = 0;
  uid = 0;
}

-- gonja.FromFile and Execute, the sums in hexadecimal, and functions of path/filepath.
pub record Engine (W Parsed : Type 0) : Type 0 where
  pub from_file : String → W → Outcome Parsed
  pub execute : Parsed → Variables → Outcome String
  pub sha1 : String → String
  pub md5 : String → String
  pub join : String → String → String
  pub is_abs : String → Bool

abbrev pub vars_of : Option Variables → Variables
vars_of none = []
vars_of (some vars) = vars

abbrev pub mode_value : Option String → ModeArg
mode_value none = absent
mode_value (some v) = text v

-- c.Mode != nil && c.Mode.Value != ""
abbrev pub has_mode : Option String → Bool
has_mode none = false
has_mode (some v) = not (str_eq v "")

abbrev pad : List ℕ → List ℕ
pad [] = b'0' ∷ b'0' ∷ b'0' ∷ b'0' ∷ []
pad (a ∷ []) = b'0' ∷ b'0' ∷ b'0' ∷ a ∷ []
pad (a ∷ b ∷ []) = b'0' ∷ b'0' ∷ a ∷ b ∷ []
pad (a ∷ b ∷ c ∷ []) = b'0' ∷ a ∷ b ∷ c ∷ []
pad (a ∷ b ∷ c ∷ d ∷ s) = a ∷ b ∷ c ∷ d ∷ s

-- fmt.Sprintf("%04o", n)
unfoldable pub format_padded : ℕ → List ℕ
format_padded n = pad (octal_digits 11 n [])

-- uint64(id), for an id that was given
abbrev id_of : ℤ → ℕ → ℕ
id_of id old = if is_minus_one id then old else to_uint64 id

abbrev pub set_owner : Template → ℤ → TemplateResult → TemplateResult
set_owner c uid r =
    if str_eq c.owner "" then r else record r { owner = c.owner; uid = id_of uid r.uid }

abbrev pub set_group : Template → ℤ → TemplateResult → TemplateResult
set_group c gid r =
    if str_eq c.group "" then r else record r { group = c.group; gid = id_of gid r.gid }

abbrev pub set_stat : Template → FileInfo → TemplateResult → TemplateResult
set_stat c info r = record r {
  dest = c.dest;
  size = info.file_size;
  mode = if has_mode c.mode then format_padded info.perm else r.mode;
}

module _ (os : Os) {Parsed : Type 0} (engine : Engine os.World Parsed) where
  abbrev pub Task : Type 0 → Type 0
  Task A = Action (State os.World TemplateResult) A

  unfoldable pub validate : Template → Outcome (Unit {0})
  validate c =
      if engine.is_abs c.src
      then err (message "template from an absolute path is not supported")
      else if str_eq c.src ""
      then err (message "src is required")
      else if str_eq c.dest ""
      then err (message "dest is required")
      else ok tt

  abbrev pub src_path : Template → String → String
  src_path c parent = engine.join (engine.join parent "templates") c.src

  abbrev pub same_content : String → Outcome String → Outcome Bool
  same_content rendered found =
      and_then (wrap "failed to read from" found)
        (λ existing. ok (str_eq (engine.md5 existing) (engine.md5 rendered)))

  abbrev pub current_as : Template → String → os.World → Outcome FileInfo → Outcome Bool
  current_as c rendered w (ok info) =
      if info.is_regular then same_content rendered (os.read_file c.dest w) else ok false
  current_as c rendered w (err e) =
      if is_not_exist e then ok false else wrap "failed to state" (err e)
  current_as c rendered w panic = panic

  -- Whether the destination has the rendered content already.
  unfoldable pub is_current : Template → String → os.World → Outcome Bool
  is_current c rendered w = current_as c rendered w (os.stat c.dest w)

  unfoldable pub set_attributes : Template → Task (Unit {0})
  set_attributes c =
      if has_mode c.mode || not (str_eq c.owner "") || not (str_eq c.group "")
      then (do
        uid ← checked (query (get_uid os c.owner))
        gid ← checked (query (get_gid os c.group))
        checked (
            wrapping "failed to apply mode and IDs"
              (call (apply_mode_and_ids os c.dest (mode_value c.mode) uid gid)))
        set_extra (set_owner c uid)
        set_extra (set_group c gid))
      else pure tt

  unfoldable pub replace : Template → String → Task (Unit {0})
  unfolding set_attributes
  replace c rendered = do
    checked (wrapping "failed to write destination" (call (os.write_file c.dest rendered 0o644)))
    mark_changed
    set_extra (λ r. record r { md5_sum = engine.md5 rendered })
    set_attributes c
    info ← checked (wrapping "failed to stat" (query (os.stat c.dest)))
    set_extra (set_stat c info)

  unfoldable pub apply_body : Template → String → Option Variables → Task (Unit {0})
  unfolding is_current replace
  apply_body c parent vars = do
    parsed ←
        checked
          (wrapping "failed to read template file" (query (engine.from_file (src_path c parent))))
    rendered ←
        checked
          (wrapping "failed to template file" (query (λ w. engine.execute parsed (vars_of vars))))
    set_extra (λ r. record r { checksum = engine.sha1 rendered })
    current ← checked (query (is_current c rendered))
    if current then mark_skipped else replace c rendered

  unfoldable pub apply :
      Template
      → String
      → Option Variables
      → os.World
      → Outcome (Unit {0}) × State os.World TemplateResult
  unfolding apply_body
  apply c parent vars w = run (apply_body c parent vars) empty_template_result w
