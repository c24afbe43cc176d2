-- ===== src/AptRepository.antt =====
-- pkg/exec/apt_repository.go: the task `apt_repository`, over the interface aptClient.
pub mod Laws
use sophons.Base.{
  ℕ, String, str_eq, Bool, true, false, not, ◌&&◌, ◌||◌, Option, none, some, List, [], ◌∷◌, ◌++◌,
  leb, if◌then◌else◌,
}
use sophons.Base.Text.{codes}
use sophons.Base.Action.{
  message, Outcome, ok, err, Action, wrapping, and_then, wrap, ◌>>=◌, ◌>>◌, pure,
}
use sophons.Result.{State, mark_changed, fail, query, call, checked, run}

-- proto.AptRepository: the parameters that the task reads.
pub record AptRepository : Type 0 where
  pub repo : String
  pub state : String
  pub update_cache : Option Bool

-- The calls of aptClient and of net/url; the folder is always /etc/apt. `parse_url` gives
-- Hostname() and Path, as code points.
pub record RepositoryClient (W Repository : Type 0) : Type 0 where
  pub parse_config_folder : W → Outcome (List Repository)
  pub parse_config_line : String → Option Repository
  pub uri : Repository → String
  pub find : List Repository → Repository → Option Repository
  pub add_repository : Repository → List ℕ → Action W (Unit {0})
  pub remove_repository : Repository → Action W (Unit {0})
  pub check_for_updates : Action W (Unit {0})
  pub parse_url : String → Outcome (List ℕ × List ℕ)

abbrev pub is_alphanumeric : ℕ → Bool
is_alphanumeric c =
    (leb b'a' c && leb c b'z') || (leb b'A' c && leb c b'Z') || (leb b'0' c && leb c b'9')

-- ReplaceAllString of [^a-zA-Z0-9]+ by an underscore. `inside` tells whether the code point before
-- belonged to a match too.
unfoldable pub slug : Bool → List ℕ → List ℕ
slug inside [] = []
slug inside (c ∷ s) =
    let kept = slug false s in
    let dropped = slug true s in
    if is_alphanumeric c then c ∷ kept else if inside then dropped else b'_' ∷ dropped

unfoldable pub validate : AptRepository → Outcome (Unit {0})
validate a =
    if str_eq a.repo ""
    then err (message "repo is required")
    else if not (str_eq a.state "absent")
        && not (str_eq a.state "present")
        && not (str_eq a.state "")
    then err (message "unsupported state")
    else ok tt

abbrev wants_update : Option Bool → Bool
wants_update none = true
wants_update (some b) = b

module _ {W Repository : Type 0} (client : RepositoryClient W Repository) where
  abbrev pub Task : Type 0 → Type 0
  Task A = Action (State W (Unit {0})) A

  -- uriToFilename
  unfoldable pub uri_to_filename : String → Outcome (List ℕ)
  unfolding slug
  uri_to_filename uri =
      and_then (wrap "failed to parse repository URL" (client.parse_url uri))
        (λ (host, path). ok (slug false (host ++ path) ++ codes ".list"))

  unfoldable pub remove_found : Option Repository → Task (Unit {0})
  remove_found none = pure tt
  remove_found (some found) = do
    mark_changed
    checked (wrapping "failed to remove repository" (call (client.remove_repository found)))

  unfoldable pub add_missing : Repository → Option Repository → Task (Unit {0})
  unfolding uri_to_filename
  add_missing repo (some found) = pure tt
  add_missing repo none = do
    filename ← checked (
        wrapping "failed to infer filename from repo"
          (query (λ w. uri_to_filename (client.uri repo))))
    mark_changed
    checked (wrapping "failed to add repository" (call (client.add_repository repo filename)))

  unfoldable pub update_cache : AptRepository → Task (Unit {0})
  update_cache a =
      if wants_update a.update_cache
      then (do
        mark_changed
        checked (wrapping "failed to update apt cache" (call client.check_for_updates)))
      else pure tt

  unfoldable pub change : AptRepository → List Repository → Option Repository → Task (Unit {0})
  unfolding remove_found add_missing
  change a repositories none = fail (message "failed to parse repo line")
  change a repositories (some repo) =
      if str_eq a.state "absent"
      then remove_found (client.find repositories repo)
      else add_missing repo (client.find repositories repo)

  unfoldable pub apply_body : AptRepository → Task (Unit {0})
  unfolding change update_cache
  apply_body a = do
    repositories ←
        checked
          (wrapping "failed to parse existing repositories" (query client.parse_config_folder))
    change a repositories (client.parse_config_line a.repo)
    update_cache a

  unfoldable pub apply : AptRepository → W → Outcome (Unit {0}) × State W (Unit {0})
  unfolding apply_body
  apply a w = run (apply_body a) tt w
