-- ===== src/Copy.antt =====
-- pkg/exec/copy.go: the task `copy`. Its result is CopyResult{} in every case.
pub mod Laws
use sophons.Base.{
  ℕ, String, str_eq, Bool, true, false, not, ◌&&◌, List, [], ◌∷◌, ◌==◌, Option, none, some,
  if◌then◌else◌,
}
use sophons.Base.Text.{codes}
use sophons.Base.Action.{
  Error, message, is_exist, is_not_exist, Outcome, ok, err, panic, Action, wrapping, read, raise,
  pure, each, ◌>>=◌, ◌>>◌,
}
use sophons.Result.{CommonResult, empty_result}
use sophons.Os.{Os, FileInfo}

-- proto.Copy: the parameters that the task reads.
pub record Copy : Type 0 where
  pub src : String
  pub dest : String
  pub content : String
  pub remote_src : Bool

-- What filepath.WalkDir hands to its callback.
pub record CopyEntry : Type 0 where
  pub path : String
  pub is_dir : Bool
  pub error : Option Error

-- Functions of path/filepath, and os.Open.
pub record Paths (W : Type 0) : Type 0 where
  pub join : String → String → String
  pub base : String → String
  pub rel : String → String → Outcome String
  pub is_abs : String → Bool
  pub walk : String → W → List CopyEntry
  pub open_file : String → W → Outcome (Unit {0})

-- strings.HasSuffix(s, "/")
unfoldable pub ends_with_slash : List ℕ → Bool
ends_with_slash [] = false
ends_with_slash (c ∷ []) = c == b'/'
ends_with_slash (c ∷ d ∷ s) = ends_with_slash (d ∷ s)

abbrev pub has_slash : String → Bool
has_slash s = ends_with_slash (codes s)

-- An error of Mkdir, but for fs.ErrExist.
abbrev pub unless_exist : Outcome (Unit {0}) → Outcome (Unit {0})
unless_exist (ok u) = ok u
unless_exist (err e) = if is_exist e then ok tt else err e
unless_exist panic = panic

-- Whether the destination is a directory; one that does not exist is none.
abbrev pub dest_is_dir : Outcome FileInfo → Outcome Bool
dest_is_dir (ok info) = ok info.is_dir
dest_is_dir (err e) = if is_not_exist e then ok false else err e
dest_is_dir panic = panic

module _ (os : Os) (paths : Paths os.World) where
  abbrev pub Run : Type 0 → Type 0
  Run A = Action os.World A

  unfoldable pub validate : Copy → Outcome (Unit {0})
  validate c =
      if paths.is_abs c.src && not c.remote_src
      then err (message "copying from an absolute path without remote_src is not supported")
      else if str_eq c.src "" && str_eq c.content ""
      then err (message "either src or content need to be specified")
      else if not (str_eq c.src "") && not (str_eq c.content "")
      then err (message "src and content can't both be specified")
      else if not (str_eq c.content "") && has_slash c.dest
      then err (message "can't use content when dest is a directory")
      else if str_eq c.dest ""
      then err (message "dest is required")
      else ok tt

  unfoldable pub copy_single_file : String → String → Run (Unit {0})
  copy_single_file src dst = do
    wrapping "failed to open for reading" (read (paths.open_file src))
    wrapping "failed to open for writing" (os.create dst)
    wrapping "failed to copy" (os.copy_file src dst)

  -- dstDir
  unfoldable pub dst_dir : Copy → String → String
  unfolding ends_with_slash
  dst_dir c actual_src =
      if has_slash actual_src then c.dest else paths.join c.dest (paths.base c.src)

  -- The callback of WalkDir.
  unfoldable pub copy_entry : String → String → CopyEntry → Run (Unit {0})
  unfolding copy_single_file
  copy_entry actual_src dst entry = elim entry.error [
    | some e ↦ raise e
    | none ↦ (do
      rel ← read (λ w. paths.rel actual_src entry.path)
      if entry.is_dir
          then os.mkdir_all (paths.join dst rel) 0o777
          else copy_single_file entry.path (paths.join dst rel))
  ]

  unfoldable pub copy_dir : Copy → String → Run (Unit {0})
  unfolding dst_dir copy_entry each
  copy_dir c actual_src = do
    wrapping "failed to create destination directory" (os.mkdir_all (dst_dir c actual_src) 0o777)
    entries ← read (λ w. ok (paths.walk actual_src w))
    each (copy_entry actual_src (dst_dir c actual_src)) entries

  abbrev tolerant : Run (Unit {0}) → Run (Unit {0})
  tolerant m w = let (r, w') = m w in (unless_exist r, w')

  unfoldable pub copy_file : Copy → String → Run (Unit {0})
  unfolding copy_single_file
  copy_file c actual_src =
      if has_slash c.dest
      then (do
        tolerant (os.mkdir c.dest 0o777)
        copy_single_file actual_src (paths.join c.dest c.src))
      else (do
        is_dir ← read (λ w. dest_is_dir (os.stat c.dest w))
        copy_single_file actual_src (if is_dir then paths.join c.dest c.src else c.dest))

  abbrev pub src_path : Copy → String → String
  src_path c parent = paths.join (paths.join parent "files") c.src

  unfoldable pub apply : Copy → String → Run CommonResult
  unfolding copy_dir copy_file
  apply c parent =
      if not (str_eq c.content "")
      then (do
        wrapping "failed to write content" (os.write_file c.dest c.content 0o666)
        pure empty_result)
      else (do
        info ← wrapping "failed to read" (read (os.stat (src_path c parent)))
        wrapping "failed to copy" (
            if info.is_dir then copy_dir c (src_path c parent) else copy_file c (src_path c parent))
        pure empty_result)
