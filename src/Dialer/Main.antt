-- ===== src/Dialer/Main.antt =====
-- cmd/dialer/main.go: the configuration of SSH, and the loop over the hosts.
use sophons.Base.{ℕ, Bool, Option, none, some, List, [], ◌∷◌, is_empty, if◌then◌else◌}
use sophons.Base.Action.{
  Error, message, Outcome, ok, err, panic, Action, and_then, wrap, wrapping, raise, read, each,
  ◌>>=◌, ◌>>◌,
}
use sophons.Dialer.{Connection, Names, execute}

-- golang.org/x/crypto/ssh and knownhosts: the signer of a key, and what checks the keys of hosts.
pub record Ssh (W Signer Callback : Type 0) : Type 0 where
  pub read_file : List ℕ → W → Outcome (List ℕ)
  pub parse_private_key : List ℕ → Outcome Signer
  pub known_hosts : List ℕ → W → Outcome Callback
  pub ignore_host_key : Callback

-- The fields of ssh.ClientConfig that differ from run to run.
pub record Config (Signer Callback : Type 0) : Type 0 where
  pub user : List ℕ
  pub signer : Signer
  pub host_key_callback : Callback

-- The flags.
pub record Flags : Type 0 where
  pub username : List ℕ
  pub key_path : List ℕ
  pub inventory_path : List ℕ
  pub bin_dir : List ℕ
  pub known_hosts_path : List ℕ
  pub insecure : Bool

module _ {W Signer Callback : Type 0} (ssh : Ssh W Signer Callback) where
  abbrev pub callback : Flags → W → Outcome Callback
  callback flags w =
      if flags.insecure
      then ok ssh.ignore_host_key
      else wrap "could not create hostkey callback" (ssh.known_hosts flags.known_hosts_path w)

  unfoldable pub ssh_config : Flags → W → Outcome (Config Signer Callback)
  ssh_config flags w =
      and_then (wrap "failed reading private key" (ssh.read_file flags.key_path w)) λ key.
        and_then (wrap "failed parsing private key" (ssh.parse_private_key key)) λ signer.
          and_then (callback flags w) λ check.
            ok (record { user = flags.username; signer = signer; host_key_callback = check })

  -- NewDialer, with the connection that it gives, and Close.
  pub record Dialing : Type 0 where
    pub new_dialer : List ℕ → Config Signer Callback → Action W (Connection W)
    pub close : Connection W → Action W (Unit {0})
    pub print : List ℕ → Action W (Unit {0})

  module _ (names : Names) (dialing : Dialing) where
    abbrev output_of : Outcome (List ℕ × Option Error) → List ℕ
    output_of (ok (out, e)) = out
    output_of (err e) = []
    output_of panic = []

    abbrev result_of : Outcome (List ℕ × Option Error) → Outcome (Unit {0})
    result_of (ok (out, none)) = ok tt
    result_of (ok (out, some e)) = err e
    result_of (err e) = err e
    result_of panic = panic

    abbrev no_panic : Outcome (List ℕ × Option Error) → Outcome (Outcome (List ℕ × Option Error))
    no_panic (ok r) = ok (ok r)
    no_panic (err e) = ok (err e)
    no_panic panic = panic

    abbrev tried : Action W (List ℕ × Option Error) → Action W (Outcome (List ℕ × Option Error))
    tried m w = let (r, w') = m w in (no_panic r, w')

    -- The body of the loop: the output is printed and the connection closed before an error ends it.
    unfoldable pub run_host : Flags → List ℕ → Config Signer Callback → List ℕ → Action W (Unit {0})
    run_host flags playbook config host = do
      conn ← wrapping "failed to create dialer" (dialing.new_dialer host config)
      r ← tried (execute conn names host flags.bin_dir flags.inventory_path playbook)
      dialing.print (output_of r)
      dialing.close conn
      wrapping "running sophons against host failed" (read (λ w. result_of r))

    -- main, with the playbooks of the command line and the hosts of the inventory; logger.Fatal is
    -- an error here.
    unfoldable pub main :
        Flags → List (List ℕ) → (W → Outcome (List (List ℕ))) → Action W (Unit {0})
    unfolding ssh_config run_host each
    main flags (playbook ∷ []) hosts_of =
        if is_empty flags.bin_dir
        then raise (message "`-b` flag is required")
        else if is_empty flags.inventory_path
        then raise (message "`-i` flag is required")
        else (do
          hosts ← read hosts_of
          config ← wrapping "failed to create SSH config" (read (ssh_config flags))
          each (run_host flags playbook config) hosts)
    main flags _ hosts_of = raise (message "missing playbook path")
