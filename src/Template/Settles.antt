-- ===== src/Template/Settles.antt =====
-- pkg/exec/template.go: a second run of a template that is in place changes nothing.
use sophons.Base.{◌⊎◌, ◌≡◌, refl, String, true, Option, ℕ}
use sophons.Base.Int.{ℤ}
use sophons.Base.Action.{Error, ok, err, After, Keeps, ◌>>=◌}
use sophons.Os.{Os, FileInfo}
use sophons.Variables.{Variables}
use sophons.Result.{task_skipped, empty_result, checked}
use sophons.Result.Preserves.{Pass}
use sophons.Template.{
  Template, Engine, apply_body, apply, empty_template_result, is_current, src_path, vars_of,
}

module _ (os : Os) {Parsed : Type 0} (engine : Engine os.World Parsed) where
  -- The destination is a regular file, which has the content where it can be read, and the template
  -- is the one it comes from.
  pub record Written (c : Template) (parent : String) (parsed : Parsed) (content : String)
      (w : os.World) : Type 0 where
    pub template : engine.from_file (src_path os engine c parent) w ≡ ok parsed
    pub info : FileInfo
    pub found : os.stat c.dest w ≡ ok info
    pub regular : info.is_regular ≡ true
    pub content_is :
        (os.read_file c.dest w ≡ ok content) ⊎ ((e : Error) × (os.read_file c.dest w ≡ err e))

  -- What is asked of the destination: what WriteFile has written to it is a regular file with that
  -- content, which is not the template; and Chmod and Chown do not touch contents, but may leave the
  -- file unreadable.
  pub record Files (c : Template) (parent : String) : Type 0 where
    pub write :
        (parsed : Parsed) (content : String) (w : os.World)
        → engine.from_file (src_path os engine c parent) w ≡ ok parsed
        → After
            (Written c parent parsed content)
            Pass
            (os.write_file c.dest content 0o644 w).0
            (os.write_file c.dest content 0o644 w).1
    pub chmod :
        (parsed : Parsed) (content : String) (mode : ℕ)
        → Keeps (Written c parent parsed content) Pass (os.chmod c.dest mode)
    pub chown :
        (parsed : Parsed) (content : String) (uid gid : ℤ)
        → Keeps (Written c parent parsed content) Pass (os.chown c.dest uid gid)

  module _ (c : Template) (parent : String) (vars : Option Variables) (parsed : Parsed)
      (content : String) where
    -- The comparison says that the content is in place, or fails with the reading of the file.
    abbrev pub Settled : os.World → Type 0
    Settled w =
        (is_current os engine c content w ≡ ok true)
        ⊎ ((e e' : Error) × (os.read_file c.dest w ≡ err e)
            × (is_current os engine c content w ≡ err e'))

    -- Where the template renders and the destination has its content by the sum MD5, the task only
    -- says that it is skipped.
    pub up_to_date :
        (w : os.World)
        → engine.from_file (src_path os engine c parent) w ≡ ok parsed
        → engine.execute parsed (vars_of vars) ≡ ok content
        → is_current os engine c content w ≡ ok true
        → apply os engine c parent vars w ≡ (
          ok tt,
          record {
            world = w;
            common = task_skipped empty_result;
            extra = record empty_template_result { checksum = engine.sha1 content };
          },
        )
    unfolding apply_body apply ◌>>=◌ checked
    up_to_date w loads executes current = simp (loads, executes, current) refl
