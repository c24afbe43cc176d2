-- ===== src/Tardiff.antt =====
-- cmd/tardiff/main.go: the tool that compares the file systems of two containers, by their archives.
pub mod Entries
pub mod Laws
use Prim.Native.String.{◌++◌ as append}
use sophons.Base.{
  ℕ, String, str_eq, Bool, true, false, not, ◌&&◌, ◌||◌, Option, none, some, is_some, is_empty,
  List, [], ◌∷◌, ◌==◌, if◌then◌else◌,
}
use sophons.Base.Text.{codes}
use sophons.Base.Dict.{Dict, lookup, insert, has}
use sophons.Base.Int.{ℤ, pos, negsuc}
use sophons.Base.Action.{Outcome, ok, err, panic, and_then}
use sophons.GetUrl.{strip_prefix, after_key}

-- The fields of tar.Header that are compared.
pub record Header : Type 0 where
  pub name : String
  pub linkname : String
  pub size : ℤ
  pub mode : ℤ
  pub uid : ℤ
  pub gid : ℤ
  pub uname : String
  pub gname : String

pub record Entry : Type 0 where
  pub hash : String
  pub linkname : String
  pub size : ℤ
  pub mode : ℤ
  pub uid : ℤ
  pub gid : ℤ
  pub uname : String
  pub gname : String

-- What tar.Reader gives until io.EOF: at each call of Next a header, with the hash of what can be
-- read of its content, or an error.
abbrev pub Archive : Type 0
Archive = List (Outcome (Header × Outcome String))

-- strings.HasPrefix
abbrev pub has_prefix : String → String → Bool
has_prefix name prefix = is_some (strip_prefix (codes prefix) (codes name))

unfoldable pub filter_out : String → Bool
unfolding strip_prefix after_key
filter_out name =
    has_prefix name "tmp/sophons"
    || has_prefix name "var/cache/ldconfig"
    || has_prefix name "var/log"
    || is_some (after_key (codes ".ansible/") (codes name))

abbrev pub path_of : Header → String
path_of h = append "/" h.name

abbrev pub entry_of : Header → String → Entry
entry_of h hash = record {
  hash = hash;
  linkname = h.linkname;
  size = h.size;
  mode = h.mode;
  uid = h.uid;
  gid = h.gid;
  uname = h.uname;
  gname = h.gname;
}

-- The loop of tarToEntries, with the map that it fills.
unfoldable pub tar_to_entries : Archive → Dict Entry → Outcome (Dict Entry)
unfolding filter_out
tar_to_entries [] out = ok out
tar_to_entries (next ∷ archive) out = and_then next λ (h, hash).
    if filter_out h.name
    then tar_to_entries archive out
    else and_then hash λ sum. tar_to_entries archive (insert (path_of h) (entry_of h sum) out)

abbrev pub int_eq : ℤ → ℤ → Bool
int_eq (pos m) (pos n) = m == n
int_eq (negsuc m) (negsuc n) = m == n
int_eq (pos m) (negsuc n) = false
int_eq (negsuc m) (pos n) = false

-- cmp.Equal of two entries
unfoldable pub entry_eq : Entry → Entry → Bool
entry_eq a b =
    str_eq a.hash b.hash
    && str_eq a.linkname b.linkname
    && int_eq a.size b.size
    && int_eq a.mode b.mode
    && int_eq a.uid b.uid
    && int_eq a.gid b.gid
    && str_eq a.uname b.uname
    && str_eq a.gname b.gname

abbrev pub add_left :
    String → Entry → Option Entry → List String × List String → List String × List String
add_left k v none (only, diff) = (k ∷ only, diff)
add_left k v (some w) (only, diff) = if entry_eq v w then (only, diff) else (only, k ∷ diff)

-- The loop over the left map: what it has alone, and what differs.
unfoldable pub compare_left : Dict Entry → Dict Entry → List String × List String
unfolding entry_eq
compare_left right [] = ([], [])
compare_left right ((k, v) ∷ left) = add_left k v (lookup k right) (compare_left right left)

-- The loop over the right map.
unfoldable pub only_right : Dict Entry → Dict Entry → List String
only_right left [] = []
only_right left ((k, v) ∷ right) =
    let rest = only_right left right in if has k left then rest else k ∷ rest

unfoldable pub is_different : Dict Entry → Dict Entry → Bool
unfolding compare_left only_right
is_different left right =
    let (only, diff) = compare_left right left in
    not (is_empty only) || not (is_empty (only_right left right)) || not (is_empty diff)

abbrev pub exit_of : Outcome Bool → ℕ
exit_of (ok different) = if different then 1 else 0
exit_of (err e) = 1
exit_of panic = 2

-- main, for two archives that can be opened: the exit code.
unfoldable pub main : Archive → Archive → ℕ
unfolding tar_to_entries is_different
main first second = exit_of (
    and_then (tar_to_entries first [])
      λ left. and_then (tar_to_entries second []) λ right. ok (is_different left right))
