-- ===== src/Dialer.antt =====
-- pkg/dialer/dialer.go and cmd/dialer/main.go: the program that copies the executer to each host of
-- the inventory and runs it there.
pub mod Main
pub mod Laws
use sophons.Base.{
  ℕ, String, Bool, true, false, not, ◌&&◌, ◌||◌, Option, none, some, List, [], ◌∷◌, ◌++◌, ◌==◌,
  if◌then◌else◌,
}
use sophons.Base.Text.{codes, trim_space}
use sophons.Base.Action.{
  Error, message, Outcome, ok, err, panic, Action, wrap, wrapping, raise, read, pure, ◌>>=◌, ◌>>◌,
}

-- Texts are code points. The calls on the connections to one host, on local files, and util.Tar.
-- `combined_output` gives the output beside the error, if there is one.
pub record Connection (W : Type 0) : Type 0 where
  pub random : Action W (List ℕ)
  pub new_session : Action W (Unit {0})
  pub combined_output : List ℕ → Action W (List ℕ × Option Error)
  pub create : List ℕ → Action W (Unit {0})
  pub open_local : List ℕ → Action W (Unit {0})
  pub copy : List ℕ → List ℕ → Action W (Unit {0})
  pub chmod : List ℕ → ℕ → Action W (Unit {0})
  pub mkdir : List ℕ → Action W (Unit {0})
  pub remove_all : List ℕ → Action W (Unit {0})
  pub tar : List ℕ → Action W (List ℕ)

-- Functions of path, path/filepath and strings.
pub record Names : Type 0 where
  pub join : List ℕ → List ℕ → List ℕ
  pub dir : List ℕ → List ℕ
  pub base : List ℕ → List ℕ
  pub to_lower : List ℕ → List ℕ

unfoldable pub text_eq : List ℕ → List ℕ → Bool
text_eq [] [] = true
text_eq (a ∷ s) (b ∷ t) = let rest = text_eq s t in a == b && rest
text_eq [] (b ∷ t) = false
text_eq (a ∷ s) [] = false

abbrev pub is_text : List ℕ → String → Bool
is_text s t = text_eq s (codes t)

-- defer: the call runs whatever has been returned, and its error is dropped.
unfoldable pub deferred : {W A : Type 0} → Action W A → Action W (Unit {0}) → Action W A
deferred body cleanup w = let (r, w') = body w in (r, (cleanup w').1)

abbrev pub Output : Type 0
Output = List ℕ × Option Error

-- switch arch
unfoldable pub bin_name_for : List ℕ → List ℕ → Outcome (List ℕ)
unfolding text_eq
bin_name_for os arch =
    if is_text arch "amd64" || is_text arch "x86_64"
    then ok (codes "executer-" ++ os ++ codes "-x86_64")
    else if is_text arch "arm64" || is_text arch "aarch64"
    then ok (codes "executer-" ++ os ++ codes "-arm64")
    else err (message "unsupported architecture")

-- if err != nil { return "", nil }
abbrev pub of_arch : List ℕ → Output → Outcome (List ℕ)
of_arch os (a, some e) = ok []
of_arch os (a, none) = bin_name_for os (trim_space a)

abbrev pub tolerated : Outcome Output → Outcome Output
tolerated (ok r) = ok r
tolerated (err e) = ok ([], some e)
tolerated panic = panic

-- An error of the session counts as one of the command.
unfoldable pub no_error : {W : Type 0} → Action W Output → Action W Output
no_error m w = let (r, w') = m w in (tolerated r, w')

module _ {W : Type 0} (conn : Connection W) (names : Names) where
  abbrev pub Run : Type 0 → Type 0
  Run A = Action W A

  unfoldable pub temp_dir_name : Run (List ℕ)
  temp_dir_name = do
    n ← wrapping "failed to generate random number for temp dir" conn.random
    pure (codes "sophons-" ++ n)

  -- runCommand: an error of the session leaves the output empty.
  unfoldable pub run_command : List ℕ → Run (List ℕ × Option Error)
  run_command command = do conn.new_session; conn.combined_output command

  unfoldable pub name_for_arch : List ℕ → Run (List ℕ)
  unfolding run_command no_error bin_name_for
  name_for_arch os =
      if not (is_text os "linux") && not (is_text os "darwin")
      then raise (message "unsupported OS")
      else (do a ← no_error (run_command (codes "uname -m")); read (λ w. of_arch os a))

  abbrev pub of_os : List ℕ × Option Error → Run (List ℕ)
  of_os (o, some e) = pure []
  of_os (o, none) = name_for_arch (names.to_lower (trim_space o))

  unfoldable pub executer_bin_name : Run (List ℕ)
  unfolding name_for_arch
  executer_bin_name = do o ← no_error (run_command (codes "uname -s")); of_os o

  unfoldable pub copy_file : List ℕ → List ℕ → Bool → Run (Unit {0})
  copy_file local remote executable = do
    conn.create remote
    conn.open_local local
    conn.copy remote local
    if executable then conn.chmod remote 0o755 else pure tt

  unfoldable pub copy_executer_binary : List ℕ → List ℕ → Run (Unit {0})
  unfolding executer_bin_name copy_file
  copy_executer_binary local_dir remote_dir = do
    name ← executer_bin_name
    copy_file (names.join local_dir name) (names.join remote_dir (codes "executer")) true

  abbrev pub dir_path : List ℕ → List ℕ
  dir_path name = names.join (codes "/tmp") name

  -- cmdLine
  unfoldable pub command_line : List ℕ → List ℕ → List ℕ → List ℕ
  command_line dir host playbook =
      let folder = names.base (names.dir playbook) in
      names.join dir (codes "executer")
      ++ codes " -i "
      ++ names.join dir (codes "inventory.yaml")
      ++ codes " -d "
      ++ names.join dir (codes "data.tar.gz")
      ++ codes " -p "
      ++ folder
      ++ codes " -n "
      ++ host
      ++ codes " "
      ++ names.join (names.join dir folder) (names.base playbook)

  -- What Execute does once it has its directory.
  unfoldable pub execute_in :
      List ℕ → List ℕ → List ℕ → List ℕ → List ℕ → Run (List ℕ × Option Error)
  unfolding copy_executer_binary command_line
  execute_in dir host bin_dir inventory playbook = do
    copy_executer_binary bin_dir dir
    wrapping "failed to copy inventory to target host"
        (copy_file inventory (names.join dir (codes "inventory.yaml")) false)
    archive ← wrapping "failed to archive and copy to target host" (conn.tar (names.dir playbook))
    wrapping "failed to copy data to target host"
        (copy_file archive (names.join dir (codes "data.tar.gz")) false)
    wrapping "failed to create session" conn.new_session
    run_command (command_line dir host playbook)

  -- Execute
  unfoldable pub execute : List ℕ → List ℕ → List ℕ → List ℕ → Run (List ℕ × Option Error)
  unfolding temp_dir_name execute_in deferred
  execute host bin_dir inventory playbook = do
    name ← wrapping "failed to generate temporary directory name for execution" temp_dir_name
    wrapping "failed to create temporary directory on target host" (conn.mkdir (dir_path name))
    deferred (execute_in (dir_path name) host bin_dir inventory playbook)
        (conn.remove_all (dir_path name))
