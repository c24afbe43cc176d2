-- ===== src/Archive/Laws.antt =====
-- What is archived is made again where it is extracted.
use sophons.Base.{◌%◌, ◌^◌, ℕ, ◌≡◌, ◌∙◌, refl, String, true, false, none, List, [], ◌∷◌, map}
use sophons.Base.Action.{ok, Action, each, wrapping, ◌>>=◌, ◌>>◌}
use sophons.Base.Congruence.{SameAt, bind-cong, then-cong}
use sophons.Archive.{
  type_dir, type_reg, type_symlink, Header, Member, Walked, FileTree, tar_member, tar_members, tar,
  untar_as, untar_member, untar,
}

-- A directory, a file with its content, or a link with its target, each under its name from the
-- folder around the source.
pub data Node : Type 0 where
  directory : String → ℕ → Node
  regular : String → ℕ → String → Node
  link : String → ℕ → String → Node

abbrev pub header_of : Node → Header
header_of (directory name mode) = record {
  name = name;
  type_flag = type_dir;
  mode = mode;
  linkname = "";
}
header_of (regular name mode content) = record {
  name = name;
  type_flag = type_reg;
  mode = mode;
  linkname = "";
}
header_of (link name mode target) = record {
  name = name;
  type_flag = type_symlink;
  mode = mode;
  linkname = target;
}

abbrev pub content_of : Node → String
content_of (directory name mode) = ""
content_of (regular name mode content) = content
content_of (link name mode target) = ""

abbrev pub target_of : Node → String
target_of (directory name mode) = ""
target_of (regular name mode content) = ""
target_of (link name mode target) = target

abbrev member_of : Node → Member
member_of node = record { header = header_of node; content = ok (content_of node) }

module _ {W Info : Type 0} (tree : FileTree W Info) where
  abbrev pub KindReads : W → Walked Info → Node → Type 0
  KindReads w entry (directory name mode) =
      (tree.is_dir entry.info ≡ true) × (tree.is_symlink entry.info ≡ false)
  KindReads w entry (regular name mode content) =
      (tree.is_dir entry.info ≡ false)
      × (tree.is_symlink entry.info ≡ false)
      × (tree.data_of entry.file w ≡ ok content)
  KindReads w entry (link name mode target) =
      (tree.is_dir entry.info ≡ false)
      × (tree.is_symlink entry.info ≡ true)
      × (tree.readlink entry.file w ≡ ok target)

  -- The machine has the node where Walk finds the entry, and FileInfoHeader describes it.
  pub record Reads (src : String) (w : W) (entry : Walked Info) (node : Node) : Type 0 where
    pub no_error : entry.error ≡ none
    pub relative : tree.rel (tree.dir src) entry.file ≡ ok (header_of node).name
    pub kind : KindReads w entry node
    pub found : Header
    pub describes : tree.file_info_header entry.info (target_of node) ≡ ok found
    pub same_header : record found { name = (header_of node).name } ≡ header_of node
    pub accepted : tree.accepted (header_of node) ≡ ok tt

  abbrev pub AllRead : String → W → List (Walked Info) → List Node → Type 0
  AllRead src w [] [] = Unit
  AllRead src w (entry ∷ entries) (node ∷ nodes) =
      Reads src w entry node × AllRead src w entries nodes
  AllRead src w [] (node ∷ nodes) = ⊥
  AllRead src w (entry ∷ entries) [] = ⊥

  tar_member-Reads :
      (src : String) (w : W) (entry : Walked Info) (node : Node)
      → Reads src w entry node
      → tar_member tree src w entry ≡ ok (member_of node)
  unfolding tar_member
  tar_member-Reads src w entry (directory name mode) h =
      let (is_dir, not_link) = h.kind in
      simp (h.no_error, h.relative, is_dir, not_link, h.describes, h.same_header, h.accepted) refl
  tar_member-Reads src w entry (regular name mode content) h =
      let (not_dir, not_link, data_read) = h.kind in
      simp
        (
          h.no_error, h.relative, not_dir, not_link, data_read, h.describes, h.same_header,
          h.accepted,
        )
        refl
  tar_member-Reads src w entry (link name mode target) h =
      let (not_dir, is_link, link_read) = h.kind in
      simp
        (
          h.no_error, h.relative, not_dir, is_link, link_read, h.describes, h.same_header,
          h.accepted,
        )
        refl

  -- Making a node beneath a directory, with the directories above it.
  abbrev pub make : String → Node → Action W (Unit {0})
  make dest (directory name mode) =
      wrapping "could not create directory" (tree.mkdir_all (tree.join dest name) (mode % 2 ^ 32))
  make dest (regular name mode content) = do
    wrapping "could not create parent directory"
        (tree.mkdir_all (tree.dir (tree.join dest name)) 0o755)
    wrapping "could not create file" (tree.open_file (tree.join dest name) (mode % 2 ^ 32))
    wrapping "could not write file" (tree.copy_to (tree.join dest name) (ok content))
  make dest (link name mode target) = do
    wrapping "could not create parent directory for symlink"
        (tree.mkdir_all (tree.dir (tree.join dest name)) 0o755)
    wrapping "could not create symlink" (tree.symlink target (tree.join dest name))

  tar_members-AllRead :
      (src : String) (w : W) (entries : List (Walked Info)) (nodes : List Node)
      → AllRead src w entries nodes
      → tar_members tree src w entries ≡ ok (map member_of nodes)
  unfolding tar_members
  tar_members-AllRead src w [] [] h = refl
  tar_members-AllRead src w [] (node ∷ nodes) h = absurd h
  tar_members-AllRead src w (entry ∷ entries) [] h = absurd h
  tar_members-AllRead src w (entry ∷ entries) (node ∷ nodes) (h, hs) =
      rw (tar_member-Reads src w entry node h, tar_members-AllRead src w entries nodes hs) refl

  untar_member-make :
      (dest : String) (node : Node) (w : W)
      → SameAt (untar_member tree dest (ok (member_of node))) (make dest node) w
  unfolding untar_member untar_as ◌>>=◌
  untar_member-make dest (directory name mode) w = record { same = refl }
  untar_member-make dest (regular name mode content) w = record { same = refl }
  untar_member-make dest (link name mode target) w = record { same = refl }

  untar-make :
      (dest : String) (nodes : List Node) (w : W)
      → SameAt (untar tree (map ok (map member_of nodes)) dest) (each (make dest) nodes) w
  unfolding untar each
  untar-make dest [] w = record { same = refl }
  untar-make dest (node ∷ nodes) w = record {
    same =
        (then-cong _ _ _ w (untar_member-make dest node w)).same
        ∙ (bind-cong (make dest node) (λ _. untar tree (map ok (map member_of nodes)) dest)
            (λ _. each (make dest) nodes) w (λ u s e. untar-make dest nodes s)).same;
  }

  -- Of a source that can be read and has directories, regular files and links only, Tar writes an
  -- archive; to extract it, on any machine, is to make each of them in its order beneath the
  -- destination, under its relative name with its mode in 32 bits, and with its content or target.
  pub untar-tar :
      (src dest : String) (w : W) (nodes : List Node)
      → AllRead src w (tree.walk src w) nodes
      → (members : List Member) × (tar tree src w ≡ ok members)
        × ((w' : W) → untar tree (map ok members) dest w' ≡ each (make dest) nodes w')
  unfolding tar
  untar-tar src dest w nodes h = (
    map member_of nodes,
    tar_members-AllRead src w (tree.walk src w) nodes h,
    λ w'. (untar-make dest nodes w').same,
  )
