-- ===== src/Copy/Laws.antt =====
-- What the task `copy` accepts, and where it puts a directory.
use sophons.Base.{
  String, ◌≡◌, ◌≢◌, ◌↔◌, ◌⊎◌, refl, ap, true, false, Bool-cases, inl, inr, arith, eq_iff,
}
use sophons.Base.Action.{ok}
use sophons.Os.{Os}
use sophons.Copy.{Copy, Paths, has_slash, validate, dst_dir, src_path}

module _ (os : Os) (paths : Paths os.World) where
  -- A task `copy` is accepted exactly when it has a destination, and either a source, which is
  -- relative unless `remote_src` is set, or a content with a destination that is no directory.
  pub copy-validate_iff :
      (c : Copy)
      → paths.is_abs "" ≡ false
      → (validate os paths c ≡ ok tt)
        ↔ (c.dest ≢ "")
          × (((c.src ≢ "")
                × (c.content ≡ "")
                × ((paths.is_abs c.src ≡ false) ⊎ (c.remote_src ≡ true)))
              ⊎ ((c.src ≡ "") × (c.content ≢ "") × (has_slash c.dest ≡ false)))
  unfolding validate
  copy-validate_iff c relative =
      ground (arith, eq_iff c.src "", eq_iff c.content "", eq_iff c.dest "", ap paths.is_abs)

  -- A directory is always copied under its own name: a `src` that ends in a slash does not make the
  -- task copy the contents only, since filepath.Join, which makes the path of the source, leaves no
  -- slash at the end of a path other than the root.
  pub copied_under_name :
      (c : Copy) (parent : String)
      → ((a b : String) → has_slash (paths.join a b) ≡ true → paths.join a b ≡ "/")
      → src_path os paths c parent ≢ "/"
      → dst_dir os paths c (src_path os paths c parent) ≡ paths.join c.dest (paths.base c.src)
  unfolding dst_dir
  copied_under_name c parent cleaned not_root =
      elim (Bool-cases (has_slash (src_path os paths c parent))) [
        | inl h ↦ absurd (not_root (cleaned (paths.join parent "files") c.src h))
        | inr h ↦ rw h refl
      ]
