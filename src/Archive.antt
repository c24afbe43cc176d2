-- ===== src/Archive.antt =====
-- pkg/util/tar.go: the archive of the playbook's directory, and its extraction on the host.
pub mod Laws
use sophons.Base.{
  ◌%◌, ◌^◌, ℕ, String, Bool, true, false, ◌||◌, Option, none, some, List, [], ◌∷◌, if◌then◌else◌,
}
use sophons.Base.Action.{
  Error, message, Outcome, ok, err, panic, Action, and_then, wrap, wrapping, read, raise, pure,
  each, ◌>>=◌, ◌>>◌,
}

-- header.Typeflag
pub data TypeFlag : Type 0 where
  type_dir type_reg type_symlink : TypeFlag
  type_other : ℕ → TypeFlag

-- tar.Header. What tar.FileInfoHeader gives has no directory in its name.
pub record Header : Type 0 where
  pub name : String
  pub type_flag : TypeFlag
  pub mode : ℕ
  pub linkname : String

-- One member of an archive: `content` is what is read of it, as far as it can be.
pub record Member : Type 0 where
  pub header : Header
  pub content : Outcome String

-- What filepath.Walk hands to its callback.
pub record Walked (Info : Type 0) : Type 0 where
  pub file : String
  pub info : Info
  pub error : Option Error

-- Calls of os, path/filepath and archive/tar. `accepted` is the error of WriteHeader, and `data`
-- that of Open and of io.Copy into the archive, or else what is copied.
pub record FileTree (W Info : Type 0) : Type 0 where
  pub walk : String → W → List (Walked Info)
  pub is_dir : Info → Bool
  pub is_symlink : Info → Bool
  pub rel : String → String → Outcome String
  pub dir : String → String
  pub join : String → String → String
  pub readlink : String → W → Outcome String
  pub file_info_header : Info → String → Outcome Header
  pub accepted : Header → Outcome (Unit {0})
  pub data_of : String → W → Outcome String
  pub mkdir_all : String → ℕ → Action W (Unit {0})
  pub open_file : String → ℕ → Action W (Unit {0})
  pub copy_to : String → Outcome String → Action W (Unit {0})
  pub symlink : String → String → Action W (Unit {0})

module _ {W Info : Type 0} (tree : FileTree W Info) where
  abbrev pub Run : Type 0 → Type 0
  Run A = Action W A

  abbrev pub link_of : Info → String → W → Outcome String
  link_of info file w =
      if tree.is_symlink info then wrap "could not read symlink" (tree.readlink file w) else ok ""

  -- What the callback writes after the header.
  abbrev pub body_of : Info → String → W → Outcome String
  body_of info file w =
      if tree.is_dir info || tree.is_symlink info
      then ok ""
      else wrap "could not copy data" (tree.data_of file w)

  abbrev pub unless_error : Option Error → Outcome (Unit {0})
  unless_error none = ok tt
  unless_error (some e) = err e

  -- The callback of Walk.
  unfoldable pub tar_member : String → W → Walked Info → Outcome Member
  tar_member src w entry = and_then (unless_error entry.error) λ u.
      and_then (tree.rel (tree.dir src) entry.file) λ name.
        and_then (link_of entry.info entry.file w) λ link.
          and_then (wrap "could not create header" (tree.file_info_header entry.info link)) λ found.
            let header = record found { name = name } in
            and_then (wrap "could not write header" (tree.accepted header)) λ u.
              and_then (body_of entry.info entry.file w)
                λ content. ok (record { header = header; content = ok content })

  unfoldable pub tar_members : String → W → List (Walked Info) → Outcome (List Member)
  unfolding tar_member
  tar_members src w [] = ok []
  tar_members src w (entry ∷ entries) =
      and_then (tar_member src w entry) λ m. and_then (tar_members src w entries) λ ms. ok (m ∷ ms)

  -- Tar, without the temporary file: the members that it writes.
  unfoldable pub tar : String → W → Outcome (List Member)
  unfolding tar_members
  tar src w = tar_members src w (tree.walk src w)

  -- The switch of Untar. The conversion to os.FileMode keeps 32 bits.
  unfoldable pub untar_as : TypeFlag → Member → String → Run (Unit {0})
  untar_as type_dir m target =
      wrapping "could not create directory" (tree.mkdir_all target (m.header.mode % 2 ^ 32))
  untar_as type_reg m target = do
    wrapping "could not create parent directory" (tree.mkdir_all (tree.dir target) 0o755)
    wrapping "could not create file" (tree.open_file target (m.header.mode % 2 ^ 32))
    wrapping "could not write file" (tree.copy_to target m.content)
  untar_as type_symlink m target = do
    wrapping "could not create parent directory for symlink"
        (tree.mkdir_all (tree.dir target) 0o755)
    wrapping "could not create symlink" (tree.symlink m.header.linkname target)
  untar_as (type_other n) m target = pure tt

  unfoldable pub untar_member : String → Outcome Member → Run (Unit {0})
  unfolding untar_as
  untar_member dest next = do
    m ← wrapping "error reading tar" (read (λ w. next))
    untar_as m.header.type_flag m (tree.join dest m.header.name)

  -- Untar, of what Next gives until io.EOF.
  unfoldable pub untar : List (Outcome Member) → String → Run (Unit {0})
  unfolding untar_member each
  untar archive dest = each (untar_member dest) archive
