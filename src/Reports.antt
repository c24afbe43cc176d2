-- ===== src/Reports.antt =====
-- The Apply methods of pkg/exec that fill in their results: file, command, shell, apt,
-- apt_repository and template.
use sophons.Base.{String, Bool, Option}
use sophons.Variables.{Variables}
use sophons.Os.{Os}
use sophons.Result.Consistent.{Reports}
use sophons.File.{File}
use sophons.File.Apply
use sophons.File.Apply.Consistent.{apply-Reports}
use sophons.Command.{Executor, Params}
use sophons.Command.Apply as CommandApply
use sophons.Command.Shell
use sophons.Command.Laws.{command-Reports, shell-Reports}
use sophons.Apt.{Apt, AptClient}
use sophons.Apt.Apply as AptApply
use sophons.Apt.Laws.{apt-Reports}
use sophons.AptRepository.{AptRepository, RepositoryClient}
use sophons.AptRepository
use sophons.AptRepository.Laws.{apt_repository-Reports}
use sophons.Template.{Template, Engine}
use sophons.Template
use sophons.Template.Laws.{template-Reports}

module _ (os : Os) (x : Executor os.World) (client : AptClient os.World)
    {Repository Parsed : Type 0} (repositories : RepositoryClient os.World Repository)
    (engine : Engine os.World Parsed) where
  -- The tasks file, command, shell, apt, apt_repository and template each return an error exactly
  -- when their result says that they failed, on any machine: a return goes with a result that has
  -- not failed, and an error with one that has.
  pub tasks_report :
      (f : File) (p : Params) (expand : Bool) (executable : String) (a : Apt) (r : AptRepository)
      (c : Template) (parent : String) (vars : Option Variables) (w : os.World)
      → Reports (Apply.apply os f w)
        × Reports (CommandApply.apply os x p expand w)
        × Reports (Shell.apply os x p executable w)
        × Reports (AptApply.apply client a w)
        × Reports (AptRepository.apply repositories r w)
        × Reports (Template.apply os engine c parent vars w)
  tasks_report f p expand executable a r c parent vars w = (
    apply-Reports os f w,
    command-Reports os x p expand w,
    shell-Reports os x p executable w,
    apt-Reports client a w,
    apt_repository-Reports repositories r w,
    template-Reports os engine c parent vars w,
  )
