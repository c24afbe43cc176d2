-- ===== src/Conformance/Harness.antt =====
-- cmd/conformance/main.go: which playbooks are tested, and the test of one in containers.
use Prim.Native.Nat.{zero, suc}
use sophons.Base.{
  ℕ, Bool, true, false, not, ◌||◌, Option, none, some, is_some, is_empty, List, [], ◌∷◌, ◌++◌, map,
  if◌then◌else◌,
}
use sophons.Base.Text.{codes, trim_space, split}
use sophons.Base.Action.{
  message, Outcome, ok, err, panic, Action, wrapping, raise, read, pure, ◌>>=◌, ◌>>◌,
}
use sophons.GetUrl.{strip_prefix, after_key}
use sophons.Dialer.{text_eq}

-- Texts are code points.
abbrev pub Text : Type 0
Text = List ℕ

abbrev pub member : Text → List Text → Bool
member s [] = false
member s (t ∷ ts) = text_eq s t || member s ts

abbrev pub keep_allowed : (Text → Text) → List Text → List Text → List Text
keep_allowed base allowed [] = []
keep_allowed base allowed (p ∷ ps) =
    let rest = keep_allowed base allowed ps in if member (base p) allowed then p ∷ rest else rest

abbrev some_or_error : List Text → Outcome (List Text)
some_or_error [] = err (message "no playbooks matched the -only filter")
some_or_error (p ∷ ps) = ok (p ∷ ps)

-- The flag -only, where `base` is filepath.Base.
unfoldable pub selected : (Text → Text) → Text → List Text → Outcome (List Text)
unfolding split trim_space text_eq
selected base only playbooks =
    if is_empty only
    then ok playbooks
    else some_or_error (keep_allowed base (map trim_space (split b',' only)) playbooks)

abbrev host : Text
host = codes "127.0.0.1"

-- A line of ssh-keyscan, with the port.
unfoldable pub with_port : Text → Text → Text
unfolding strip_prefix
with_port port line = elim (strip_prefix (host ++ codes " ") line) [
  | none ↦ line
  | some rest ↦ codes "[" ++ host ++ codes "]:" ++ port ++ codes " " ++ rest
]

abbrev pub known_hosts_of : Text → List Text → Text
known_hosts_of port [] = []
known_hosts_of port (line ∷ lines) = with_port port line ++ codes "\n" ++ known_hosts_of port lines

-- Commands, with what they print; an environment variable that one is given; SSH, whose error is
-- given as its text; bufio.Scanner; and files.
pub record Tools (W : Type 0) : Type 0 where
  pub command : Option (Text × Text) → List Text → Action W Text
  pub dial : Text → Action W (Option Text)
  pub sleep : Action W (Unit {0})
  pub lines : Text → Outcome (List Text)
  pub join : Text → Text → Text
  pub mkdir_temp : Action W Text
  pub mkdir : Text → Action W (Unit {0})
  pub remove_all : Text → Action W (Unit {0})
  pub write_file : Text → Text → Action W (Unit {0})

module _ {W : Type 0} (tools : Tools W) where
  abbrev pub Run : Type 0 → Type 0
  Run A = Action W A

  unfoldable pub run_command : Option (Text × Text) → List Text → Run (Unit {0})
  run_command env words = do wrapping "failed to run command" (tools.command env words); pure tt

  abbrev logged : Outcome (Unit {0}) → Outcome (Unit {0})
  logged (ok u) = ok u
  logged (err e) = ok tt
  logged panic = panic

  abbrev pub only_logged : Run (Unit {0}) → Run (Unit {0})
  only_logged m w = let (r, w') = m w in (logged r, w')

  unfoldable pub container_cleanup : Text → Run (Unit {0})
  unfolding run_command
  container_cleanup sha = do
    only_logged (run_command none (codes "docker" ∷ codes "stop" ∷ sha ∷ []))
    only_logged (run_command none (codes "docker" ∷ codes "rm" ∷ sha ∷ []))

  -- An error that is not about authentication.
  abbrev is_down : Option Text → Bool
  is_down none = false
  is_down (some e) = not (is_some (after_key (codes "unable to authenticate") e))

  -- The loop that waits for the SSH server, with the attempts that are left.
  unfoldable pub wait_for_ssh : ℕ → Text → Run Bool
  unfolding after_key
  wait_for_ssh zero port = pure false
  wait_for_ssh (suc attempts) port = do
    e ← tools.dial (host ++ codes ":" ++ port)
    if is_down e then (do tools.sleep; wait_for_ssh attempts port) else pure true

  abbrev last_line : Text → List Text → Text
  last_line s [] = s
  last_line s (t ∷ ts) = last_line t ts

  -- The last line of what docker prints.
  abbrev pub sha_of : Text → Text
  sha_of output = last_line [] (split b'\n' (trim_space output))

  abbrev docker_run : Text → Text → List Text
  docker_run image port =
      codes "docker"
      ∷ codes "run"
      ∷ codes "-d"
      ∷ codes "-p"
      ∷ (host ++ codes ":" ++ port ++ codes ":22")
      ∷ image
      ∷ []

  unfoldable pub start_container : Text → Text → Run Text
  unfolding container_cleanup wait_for_ssh split trim_space
  start_container image port = do
    output ← wrapping "failed to start container" (tools.command none (docker_run image port))
    ready ← wait_for_ssh 20 port
    if ready then pure (sha_of output) else (do
      container_cleanup (sha_of output)
      raise (message "could not connect to container's SSH server"))

  unfoldable pub setup_known_hosts : Text → Text → Run (Unit {0})
  unfolding with_port
  setup_known_hosts path port = do
    output ←
        wrapping "failed to run ssh-keyscan"
          (tools.command none (codes "ssh-keyscan" ∷ codes "-p" ∷ port ∷ host ∷ []))
    lines ← wrapping "error scanning ssh-keyscan output" (read (λ w. tools.lines output))
    tools.write_file path (known_hosts_of port lines)
