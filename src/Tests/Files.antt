-- ===== src/Tests/Files.antt =====
-- The task `file`, and modes.
use mathlib.Core.Bool.{true≢false}
use sophons.Base.{
  sym, ℕ, String, ◌≡◌, refl, Bool, true, false, Option, none, some, Option-cases, List, [], ◌∷◌,
  inl, inr,
}
use sophons.Base.Dict.{lookup}
use sophons.Base.Text.{codes, split, contains}
use sophons.Base.Bits.{test}
use sophons.Base.Action.{ok, ok-injective, ◌>>=◌}
use sophons.Result.{checked}
use sophons.Util.Mode.{mode_from_spec}
use sophons.Util.Mode.Clauses.{mode_from_spec_bits, parts_bit}
use sophons.Util.Mode.Masks.{others, can_read, position}
use sophons.File.{File}
use sophons.File.Attributes.{needs_change}
use sophons.File.Apply.{apply, exists}
use sophons.File.Apply.Honest.{apply_honest}
use sophons.Tests.{memory, disk, make}

abbrev pub directory : String → File
directory path = record {
  path = path;
  state = "directory";
  src = "";
  owner = "";
  group = "";
  mode = none;
  recurse = false;
  follow = none;
}

pub make_existing :
    (path : String) (mode : ℕ) (v : memory.World)
    → exists memory path v ≡ ok true
    → (make path mode v).0 ≡ ok tt
    → (make path mode v).1 ≡ v
unfolding exists
make_existing path mode v there done = elim (Option-cases (lookup path v)) [
  | inl e ↦ absurd (true≢false (sym (ok-injective (rw e at there))))
  | inr (perm, e) ↦ rw e refl
]

apply_honest_example : (apply memory (directory "/srv") disk).1.world ≡ disk
unfolding apply ◌>>=◌ checked exists lookup sophons.Util.get_uid sophons.Util.get_gid
    sophons.File.Apply.dispatch sophons.File.Apply.apply_directory
    sophons.File.Apply.mark_and_update needs_change sophons.File.Apply.finish
    sophons.File.Apply.later_steps
apply_honest_example = apply_honest memory (directory "/srv") disk make_existing refl refl

mode_from_spec_bits_example :
    test (position others can_read) 0o700
    ≡ parts_bit
        (split b',' (codes "u+x,go-r"))
        others
        can_read
        (test (position others can_read) 0o644)
unfolding mode_from_spec split sophons.Base.Text.trim_space contains
mode_from_spec_bits_example = mode_from_spec_bits 0o644 "u+x,go-r" others can_read {m = 0o700} refl
