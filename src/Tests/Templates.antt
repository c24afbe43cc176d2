-- ===== src/Tests/Templates.antt =====
-- The task `template`, on a machine that is the content of one file.
use sophons.Base.{ℕ, String, Bool, true, false, Option, none, some, List, []}
use sophons.Base.Action.{not_exist, Outcome, ok, err}
use sophons.Os.{Os, FileInfo}
use sophons.Result.{State}
use sophons.Template.{Template, TemplateResult, Engine, apply}

abbrev pub Disk : Type 0
Disk = Option String

abbrev pub keep : Disk → Outcome (Unit {0}) × Disk
keep w = (ok tt, w)

abbrev info : FileInfo
info = record {
  perm = 0o644;
  is_symlink = false;
  is_dir = false;
  is_regular = true;
  mod_time = 0;
  file_size = 5;
  sys = none;
}

abbrev stat_of : Disk → Outcome FileInfo
stat_of none = err not_exist
stat_of (some content) = ok info

abbrev content_of : Disk → Outcome String
content_of none = err not_exist
content_of (some content) = ok content

abbrev pub one_file : Os
one_file = record {
  World = Disk;
  lstat = λ path w. stat_of w;
  stat = λ path w. stat_of w;
  dir = λ path. "/etc";
  base = λ path. path;
  stat_in = λ dir name w. stat_of w;
  readlink = λ path w. err not_exist;
  read_file = λ path w. content_of w;
  glob = λ path w. ok [];
  walk_dir = λ path w. [];
  chmod = λ path mode w. keep w;
  chown = λ path uid gid w. keep w;
  lchown = λ path uid gid w. keep w;
  remove_all = λ path w. (ok tt, none);
  remove = λ path w. (ok tt, none);
  mkdir = λ path mode w. keep w;
  mkdir_all = λ path mode w. keep w;
  symlink = λ source path w. keep w;
  create = λ path w. (ok tt, some "");
  write_file = λ path content perm w. (ok tt, some content);
  copy_file = λ source path w. keep w;
  lookup_id = λ name w. err not_exist;
  lookup_user = λ name w. ok "0";
  lookup_group_id = λ name w. err not_exist;
  lookup_group = λ name w. ok "0";
  user_name = λ id w. ok "root";
  group_name = λ id w. ok "root";
}

-- A template gives its own text.
abbrev pub engine : Engine Disk String
engine = record {
  from_file = λ path w. ok "hello";
  execute = λ parsed vars. ok parsed;
  sha1 = λ content. content;
  md5 = λ content. content;
  join = λ a b. b;
  is_abs = λ path. false;
}

abbrev pub motd : Template
motd = record {
  src = "motd.j2";
  dest = "/etc/motd";
  owner = "root";
  group = "";
  mode = some "0644";
}

abbrev first_run : State Disk TemplateResult
first_run = (apply one_file engine motd "" none none).1
