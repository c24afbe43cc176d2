-- ===== src/Conformance/Test.antt =====
-- cmd/conformance/main.go: the two runs of a playbook, and their comparison.
use sophons.Base.{none, some, [], ◌∷◌, ◌++◌, if◌then◌else◌}
use sophons.Base.Text.{codes}
use sophons.Base.Action.{message, raise, ◌>>=◌, ◌>>◌}
use sophons.Dialer.{is_text, deferred}
use sophons.Conformance.Harness.{
  Text, Tools, Run, run_command, container_cleanup, start_container, setup_known_hosts,
}

module _ {W : Type 0} (tools : Tools W) (image : Text) where
  -- case "sophons"
  unfoldable pub run_sophons : Text → Text → Text → Text → Run tools (Unit {0})
  run_sophons key playbook known_hosts port = run_command tools none (
      codes "./bin/dialer"
      ∷ codes "-p"
      ∷ port
      ∷ codes "-b"
      ∷ codes "bin/"
      ∷ codes "-i"
      ∷ codes "data/inventory-testing.yaml"
      ∷ codes "-k"
      ∷ key
      ∷ codes "-u"
      ∷ codes "root"
      ∷ codes "--known-hosts"
      ∷ known_hosts
      ∷ playbook
      ∷ [])

  -- case "ansible"
  unfoldable pub run_ansible : Text → Text → Text → Text → Text → Run tools (Unit {0})
  run_ansible dir key playbook known_hosts port = do
    tools.mkdir (tools.join dir (codes "ansible-cp"))
    run_command tools
        (some (codes "ANSIBLE_SSH_CONTROL_PATH_DIR", tools.join dir (codes "ansible-cp")))
        (codes "ansible-playbook"
          ∷ codes "--key-file"
          ∷ key
          ∷ codes "-u"
          ∷ codes "root"
          ∷ codes "-i"
          ∷ codes "data/inventory-testing.yaml"
          ∷ (codes "--ssh-common-args=-p "
              ++ port
              ++ codes " -o UserKnownHostsFile="
              ++ known_hosts)
          ∷ playbook
          ∷ [])

  unfoldable pub run_mode : Text → Text → Text → Text → Text → Text → Run tools (Unit {0})
  unfolding run_sophons run_ansible
  run_mode dir key playbook mode known_hosts port =
      if is_text mode "sophons"
      then run_sophons key playbook known_hosts port
      else if is_text mode "ansible"
      then run_ansible dir key playbook known_hosts port
      else raise (message "unknown mode")

  -- What runPlaybook does in the container.
  unfoldable pub run_in_container :
      Text → Text → Text → Text → Text → Text → Text → Run tools (Unit {0})
  unfolding run_mode
  run_in_container sha dir key playbook tar mode port = do
    setup_known_hosts tools (tools.join dir (codes "known_hosts")) port
    run_command tools none (
        codes "docker"
        ∷ codes "cp"
        ∷ (key ++ codes ".pub")
        ∷ (sha ++ codes ":/root/.ssh/authorized_keys")
        ∷ [])
    run_command tools none (
        codes "docker"
        ∷ codes "exec"
        ∷ sha
        ∷ codes "chown"
        ∷ codes "root:root"
        ∷ codes "/root/.ssh/authorized_keys"
        ∷ [])
    run_mode dir key playbook mode (tools.join dir (codes "known_hosts")) port
    run_command tools none (codes "docker" ∷ codes "export" ∷ codes "-o" ∷ tar ∷ sha ∷ [])

  unfoldable pub run_playbook : Text → Text → Text → Text → Text → Text → Run tools (Unit {0})
  unfolding run_in_container deferred
  run_playbook dir key playbook tar mode port = do
    sha ← start_container tools image port
    deferred (run_in_container sha dir key playbook tar mode port) (container_cleanup tools sha)

  -- What runConformanceTest does once it has its directory.
  unfoldable pub test_in : Text → Text → Text → Run tools (Unit {0})
  unfolding run_playbook
  test_in dir port playbook = do
    let key = tools.join dir (codes "testing")
    run_command tools none (codes "ssh-keygen" ∷ codes "-f" ∷ key ∷ codes "-N" ∷ [] ∷ [])
    run_playbook dir key playbook (tools.join dir (codes "sophons.tar")) (codes "sophons") port
    run_playbook dir key playbook (tools.join dir (codes "ansible.tar")) (codes "ansible") port
    run_command tools none (
        codes "./bin/tardiff"
        ∷ tools.join dir (codes "ansible.tar")
        ∷ tools.join dir (codes "sophons.tar")
        ∷ [])

  unfoldable pub run_conformance_test : Text → Text → Run tools (Unit {0})
  unfolding test_in
  run_conformance_test port playbook = do
    dir ← tools.mkdir_temp
    deferred (test_in dir port playbook) (tools.remove_all dir)
