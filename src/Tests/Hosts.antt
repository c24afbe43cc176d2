-- ===== src/Tests/Hosts.antt =====
-- A host with Linux, whose state is the directories that it has.
use sophons.Base.{
  ℕ, ◌≡◌, refl, Bool, Bool-cases, inl, inr, true, false, not, Option, none, List, [], ◌∷◌, ◌++◌,
  if◌then◌else◌,
}
use sophons.Base.Text.{codes}
use sophons.Base.Action.{Outcome, ok, Action}
use sophons.Dialer.{Connection, Names, Output, text_eq, executer_bin_name}
use sophons.Dialer.Laws.{KnownName, executer_bin_name-KnownName}

abbrev Directories : Type 0
Directories = List (List ℕ)

abbrev without : List ℕ → Directories → Directories
without path [] = []
without path (d ∷ ds) = let rest = without path ds in if text_eq path d then rest else d ∷ rest

abbrev keep : {A : Type 0} → A → Directories → Outcome A × Directories
keep a w = (ok a, w)

abbrev answer : List ℕ → Output
answer command =
    if text_eq command (codes "uname -s")
    then (codes "linux\n", none)
    else (codes "aarch64\n", none)

abbrev host : Connection Directories
host = record {
  random = keep (codes "7");
  new_session = keep tt;
  combined_output = λ command. keep (answer command);
  create = λ path. keep tt;
  open_local = λ path. keep tt;
  copy = λ remote local. keep tt;
  chmod = λ path mode. keep tt;
  mkdir = λ path w. (ok tt, path ∷ w);
  remove_all = λ path w. (ok tt, without path w);
  tar = λ dir. keep (codes "data.tar.gz");
}

abbrev names : Names
names = record {
  join = λ a b. a ++ codes "/" ++ b;
  dir = λ path. path;
  base = λ path. path;
  to_lower = λ s. s;
}

executer_bin_name-KnownName_example : KnownName (codes "executer-linux-arm64")
unfolding executer_bin_name sophons.Base.Action.◌>>=◌ sophons.Base.Text.trim_space
executer_bin_name-KnownName_example =
    executer_bin_name-KnownName host names (codes "executer-linux-arm64") [] [] refl
