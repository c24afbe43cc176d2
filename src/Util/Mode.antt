-- ===== src/Util/Mode.antt =====
-- pkg/exec/util/mode.go: file modes, as a number or as clauses such as `u+rwx,go-w`.
pub mod Keeps
pub mod Masks
pub mod Clauses
use Prim.Native.Nat.{bit_and, bit_or}
use sophons.Base.{
  ℕ, ◌%◌, ◌^◌, ◌≡◌, refl, Bool, true, false, String, str_eq, Option, none, some, List, [], ◌∷◌,
  arith, ◌==◌, is_empty, if◌then◌else◌,
}
use sophons.Base.Bits.{and_not}
use sophons.Base.Text.{codes, contains, trim_space, split}
use sophons.Base.Int.{ℤ, to_uint32}
use sophons.Base.Number.{parse_uint}
use sophons.Base.Action.{
  Error, message, Outcome, ok, err, panic, Action, read, raise, pure, and_then, ◌>>=◌, ◌>>◌,
}
use sophons.Os.{FileInfo, Os}

abbrev pub user_read : ℕ
user_read = 0o400

abbrev pub user_write : ℕ
user_write = 0o200

abbrev pub user_exec : ℕ
user_exec = 0o100

abbrev pub group_read : ℕ
group_read = 0o040

abbrev pub group_write : ℕ
group_write = 0o020

abbrev pub group_exec : ℕ
group_exec = 0o010

abbrev pub other_read : ℕ
other_read = 0o004

abbrev pub other_write : ℕ
other_write = 0o002

abbrev pub other_exec : ℕ
other_exec = 0o001

-- ErrInvalidMode
abbrev pub invalid_mode : Error
invalid_mode = message "invalid mode specification"

-- The three tests of one case of the switch over `p`.
unfoldable pub add_bits : List ℕ → ℕ → ℕ → ℕ → ℕ → ℕ
add_bits who u g o mask =
    let mask_u = if contains who b'u' then bit_or mask u else mask in
    let mask_g = if contains who b'g' then bit_or mask_u g else mask_u in
    if contains who b'o' then bit_or mask_g o else mask_g

abbrev pub perm_case : List ℕ → ℕ → ℕ → Option ℕ
perm_case who p mask =
    if p == b'r'
    then some (add_bits who user_read group_read other_read mask)
    else if p == b'w'
    then some (add_bits who user_write group_write other_write mask)
    else if p == b'x'
    then some (add_bits who user_exec group_exec other_exec mask)
    else none

-- for _, p := range perms
unfoldable pub perms_mask : List ℕ → List ℕ → ℕ → Option ℕ
unfolding add_bits
perms_mask who [] mask = some mask
perms_mask who (p ∷ perms) mask = elim (perm_case who p mask) [
  | none ↦ none
  | some mask' ↦ perms_mask who perms mask'
]

abbrev pub assign : Bool → ℕ → ℕ → ℕ → ℕ
assign on bits mask mode = if on then bit_or (and_not mode bits) (bit_and mask bits) else mode

-- The switch over `op`.
unfoldable pub apply_op : ℕ → List ℕ → ℕ → ℕ → Option ℕ
apply_op op who mask mode =
    if op == b'+'
    then some (bit_or mode mask)
    else if op == b'-'
    then some (and_not mode mask)
    else if op == b'='
    then some (
        assign (contains who b'o') 0o007 mask
          (assign (contains who b'g') 0o070 mask (assign (contains who b'u') 0o700 mask mode)))
    else none

abbrev is_op : ℕ → Bool
is_op c = if c == b'=' then true else if c == b'+' then true else c == b'-'

-- A clause cut at its first operator: who, operator, permissions. `none` is opIndex == -1.
unfoldable pub cut : List ℕ → Option (List ℕ × ℕ × List ℕ)
cut [] = none
cut (c ∷ part) =
    let rest = cut part in
    if is_op c
    then some ([], c, part)
    else elim rest [ none ↦ none | some t ↦ some (c ∷ t.0, t.1, t.2) ]

abbrev pub everyone : List ℕ
everyone = codes "ugo"

-- One clause that has been trimmed and is not empty.
unfoldable pub apply_clause : List ℕ → ℕ → ℕ → List ℕ → Option ℕ
unfolding apply_op perms_mask
apply_clause who op mode perms =
    let who' = if contains who b'a' then everyone else who in
    elim (perms_mask who' perms 0) [ none ↦ none | some mask ↦ apply_op op who' mask mode ]

abbrev pub clause_at : Option (List ℕ × ℕ × List ℕ) → ℕ → Option ℕ
clause_at none mode = none
clause_at (some t) mode = if is_empty t.2 then none else apply_clause t.0 t.1 mode t.2

unfoldable pub apply_part : List ℕ → ℕ → Option ℕ
unfolding apply_clause cut
apply_part [] mode = some mode
apply_part (c ∷ part) mode = clause_at (cut (c ∷ part)) mode

-- for part := range strings.SplitSeq(spec, ",")
unfoldable pub apply_parts : List (List ℕ) → ℕ → Option ℕ
unfolding apply_part
apply_parts [] mode = some mode
apply_parts (part ∷ parts) mode = elim (apply_part (trim_space part) mode) [
  | none ↦ none
  | some mode' ↦ apply_parts parts mode'
]

abbrev or_invalid : Option ℕ → Outcome ℕ
or_invalid none = err invalid_mode
or_invalid (some mode) = ok mode

unfoldable pub mode_from_spec : ℕ → String → Option ℕ
unfolding apply_parts
mode_from_spec perm spec = apply_parts (split b',' (codes spec)) perm

-- What `mode any` holds.
pub data ModeArg : Type 0 where
  absent : ModeArg
  text : String → ModeArg
  int int64 : ℤ → ModeArg
  uint64 : ℕ → ModeArg
  uint64_ptr : Option ℕ → ModeArg
  other : ModeArg

-- strconv.ParseUint(v, 8, 32)
abbrev pub parse_octal : String → Option ℕ
parse_octal v = parse_uint 8 (2 ^ 32) (codes v)

module _ (os : Os) where
  -- The first argument is the directory that os.DirFS is given.
  unfoldable pub new_mode_from_spec : String → String → String → os.World → Outcome ℕ
  unfolding mode_from_spec
  new_mode_from_spec dir path spec w =
      and_then (os.stat_in dir (os.base path) w)
        (λ info. or_invalid (mode_from_spec info.perm spec))

  unfoldable pub chmod_from_string : String → String → Action os.World Unit
  unfolding new_mode_from_spec
  chmod_from_string path spec = do
    mode ← read (new_mode_from_spec (os.dir path) path spec)
    os.chmod path mode

  abbrev pub chmod_text : String → String → Option ℕ → Action os.World Unit
  chmod_text path v none = chmod_from_string path v
  chmod_text path v (some n) = os.chmod path n

  -- The conversion to os.FileMode keeps 32 bits.
  unfoldable pub apply_mode : String → ModeArg → Action os.World Unit
  unfolding chmod_from_string
  apply_mode path absent = pure tt
  apply_mode path (text v) = if str_eq v "" then pure tt else chmod_text path v (parse_octal v)
  apply_mode path (int v) = os.chmod path (to_uint32 v)
  apply_mode path (int64 v) = os.chmod path (to_uint32 v)
  apply_mode path (uint64 v) = os.chmod path (v % 2 ^ 32)
  apply_mode path (uint64_ptr none) = pure tt
  apply_mode path (uint64_ptr (some v)) = os.chmod path (v % 2 ^ 32)
  apply_mode path other = raise (message "unsupported mode type")

  unfoldable pub apply_mode_and_ids : String → ModeArg → ℤ → ℤ → Action os.World Unit
  unfolding apply_mode
  apply_mode_and_ids path mode uid gid = do apply_mode path mode; os.chown path uid gid
