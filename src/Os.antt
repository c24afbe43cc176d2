-- ===== src/Os.antt =====
-- The machine that the program runs on: the calls of the packages os, io/fs, os/user and
-- path/filepath that reach the file system and the user database. Nothing is assumed of them here:
-- a world may answer as it likes, and any call may fail.
use sophons.Base.{ℕ, String, Bool, Option, List}
use sophons.Base.Int.{ℤ}
use sophons.Base.Action.{Error, Outcome, Action}

-- syscall.Stat_t
pub record StatT : Type 0 where
  pub uid : ℕ
  pub gid : ℕ
  pub nlink : ℕ
  pub size : ℕ

-- fs.FileInfo. `perm` is Mode().Perm(), and `sys` is Sys().(*syscall.Stat_t).
pub record FileInfo : Type 0 where
  pub perm : ℕ
  pub is_symlink : Bool
  pub is_dir : Bool
  pub is_regular : Bool
  pub mod_time : ℕ
  pub file_size : ℕ
  pub sys : Option StatT

-- What filepath.WalkDir hands to its callback.
pub record WalkEntry : Type 0 where
  pub path : String
  pub symlink : Bool
  pub error : Option Error

pub record Os : Type 1 where
  pub World : Type 0
  pub lstat : String → World → Outcome FileInfo
  pub stat : String → World → Outcome FileInfo
  -- filepath.Dir and filepath.Base, and fs.Stat on os.DirFS of a directory, which refuses a name
  -- that is not one of a file below it
  pub dir : String → String
  pub base : String → String
  pub stat_in : String → String → World → Outcome FileInfo
  pub readlink : String → World → Outcome String
  pub read_file : String → World → Outcome String
  pub glob : String → World → Outcome (List String)
  pub walk_dir : String → World → List WalkEntry
  pub chmod : String → ℕ → Action World (Unit {0})
  pub chown : String → ℤ → ℤ → Action World (Unit {0})
  pub lchown : String → ℤ → ℤ → Action World (Unit {0})
  pub remove_all : String → Action World (Unit {0})
  pub remove : String → Action World (Unit {0})
  pub mkdir : String → ℕ → Action World (Unit {0})
  pub mkdir_all : String → ℕ → Action World (Unit {0})
  pub symlink : String → String → Action World (Unit {0})
  pub create : String → Action World (Unit {0})
  pub write_file : String → String → ℕ → Action World (Unit {0})
  pub copy_file : String → String → Action World (Unit {0})
  -- Uid of user.LookupId and user.Lookup, Gid of user.LookupGroupId and user.LookupGroup
  pub lookup_id : String → World → Outcome String
  pub lookup_user : String → World → Outcome String
  pub lookup_group_id : String → World → Outcome String
  pub lookup_group : String → World → Outcome String
  -- Username of user.LookupId and Name of user.LookupGroupId, for a numeric id
  pub user_name : ℕ → World → Outcome String
  pub group_name : ℕ → World → Outcome String
