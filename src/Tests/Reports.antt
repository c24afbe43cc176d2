-- ===== src/Tests/Reports.antt =====
-- The tasks that fill in their results, on one machine.
use sophons.Base.{String, true, false, none, some, [], ◌∷◌}
use sophons.Base.Text.{codes}
use sophons.Base.Action.{ok, err, message}
use sophons.Result.Consistent.{Reports}
use sophons.File.Apply
use sophons.Command.Apply as CommandApply
use sophons.Command.Shell
use sophons.Command.{Executor, Params}
use sophons.Apt.{Apt, AptClient}
use sophons.Apt.Apply as AptApply
use sophons.AptRepository.{AptRepository, RepositoryClient}
use sophons.AptRepository
use sophons.Template
use sophons.Reports.{tasks_report}
use sophons.Tests.Templates.{Disk, one_file, engine, motd, keep}
use sophons.Tests.Files.{directory}

abbrev failing : Executor Disk
failing = record {
  start = λ c w. (record { stdout = ""; stderr = "no"; error = none }, w);
  expand_env = λ s w. s;
  now = λ w. 0;
}

abbrev client : AptClient Disk
client = record {
  check_for_updates = λ w. (err (message "no network"), w);
  clean_cache = keep;
  dist_upgrade = keep;
  upgrade_all = keep;
  install = λ names. keep;
  remove = λ names. keep;
  list_installed = λ w. ok [];
  lists_mod_time = λ w. ok 7;
  now = λ w. 9;
}

abbrev repositories : RepositoryClient Disk String
repositories = record {
  parse_config_folder = λ w. ok [];
  parse_config_line = λ line. none;
  uri = λ r. r;
  find = λ rs r. none;
  add_repository = λ r file. keep;
  remove_repository = λ r. keep;
  check_for_updates = keep;
  parse_url = λ url. ok (codes url, []);
}

abbrev listing : Params
listing = record {
  cmd = "ls";
  argv = [];
  creates = "";
  removes = "";
  chdir = "";
  stdin = "";
  stdin_add_newline = none;
}

abbrev update : Apt
update = record {
  name = some ("git" ∷ []);
  state = "present";
  upgrade = "";
  deb = "";
  clean = false;
  update_cache = some true;
  cache_valid_time = none;
}

abbrev tools : AptRepository
tools = record { repo = "deb tools"; state = "present"; update_cache = none }

tasks_report_example :
    Reports (Apply.apply one_file (directory "/var") none)
    × Reports (CommandApply.apply one_file failing listing false none)
    × Reports (Shell.apply one_file failing listing "" none)
    × Reports (AptApply.apply client update none)
    × Reports (AptRepository.apply repositories tools none)
    × Reports (Template.apply one_file engine motd "" none none)
tasks_report_example =
    tasks_report one_file failing client repositories engine (directory "/var") listing false ""
      update tools motd "" none none
