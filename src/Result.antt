-- ===== src/Result.antt =====
-- The result of a task (pkg/exec/task.go) and the way in which every `Apply` method builds it: a
-- result that is filled in step by step, and that is returned beside the error, if there is one.
pub mod Consistent
pub mod Honest
pub mod Preserves
pub mod Inversion
use sophons.Base.{ℕ, String, Bool, true, false, List, []}
use sophons.Base.Int.{ℤ, pos}
use sophons.Base.Action.{Error, Outcome, ok, err, panic, Action, wrapping, ◌>>=◌, ◌>>◌, raise, pure}

pub record CommonResult : Type 0 where
  pub changed : Bool
  pub failed : Bool
  pub msg : String
  pub rc : ℤ
  pub skipped : Bool
  pub stderr : String
  pub stderr_lines : List String
  pub stdout : String
  pub stdout_lines : List String

-- CommonResult{}
abbrev pub empty_result : CommonResult
empty_result = record {
  changed = false;
  failed = false;
  msg = "";
  rc = pos 0;
  skipped = false;
  stderr = "";
  stderr_lines = [];
  stdout = "";
  stdout_lines = [];
}

abbrev pub task_changed : CommonResult → CommonResult
task_changed c = record c { changed = true }

abbrev pub task_skipped : CommonResult → CommonResult
task_skipped c = record c { skipped = true }

abbrev pub task_failed : CommonResult → CommonResult
task_failed c = record c { failed = true }

-- What an `Apply` method works on: the machine, the embedded CommonResult, and the other fields of
-- its result with its local variables.
pub record State (W R : Type 0) : Type 0 where
  pub world : W
  pub common : CommonResult
  pub extra : R

module _ {W R : Type 0} where
  unfoldable pub mark_changed : Action (State W R) (Unit {0})
  mark_changed s = (ok tt, record s { common = task_changed s.common })

  unfoldable pub mark_skipped : Action (State W R) (Unit {0})
  mark_skipped s = (ok tt, record s { common = task_skipped s.common })

  abbrev pub mark_failed : State W R → State W R
  mark_failed s = record s { common = task_failed s.common }

  unfoldable pub set_common : (CommonResult → CommonResult) → Action (State W R) (Unit {0})
  set_common f s = (ok tt, record s { common = f s.common })

  unfoldable pub set_extra : (R → R) → Action (State W R) (Unit {0})
  set_extra f s = (ok tt, record s { extra = f s.extra })

  -- result.TaskFailed(); return &result, err
  unfoldable pub fail : {A : Type 0} → Error → Action (State W R) A
  fail e s = (err e, mark_failed s)

module _ {W R A : Type 0} where
  -- A call that reads the machine, or changes it.
  unfoldable pub query : (W → Outcome A) → Action (State W R) A
  query f s = (f s.world, s)

  -- A read that cannot fail.
  unfoldable pub observe : (W → A) → Action (State W R) A
  observe f s = (ok (f s.world), s)

  -- A change of the machine that cannot fail.
  unfoldable pub perform : (W → A × W) → Action (State W R) A
  perform m s = let (a, w) = m s.world in (ok a, record s { world = w })

  unfoldable pub call : Action W A → Action (State W R) A
  call m s = let (r, w) = m s.world in (r, record s { world = w })

  -- if err != nil { result.TaskFailed(); return &result, err }
  abbrev pub failing : Outcome A → State W R → Outcome A × State W R
  failing (ok a) s = (ok a, s)
  failing (err e) s = (err e, mark_failed s)
  failing panic s = (panic, s)

  -- Opening this opens the actions above too.
  unfoldable pub checked : Action (State W R) A → Action (State W R) A
  unfolding mark_changed mark_skipped set_common set_extra fail query observe perform call
  checked m s = let (r, s') = m s in failing r s'

-- result := XResult{}; ...; return &result, err
abbrev pub run :
    {W R : Type 0} → Action (State W R) (Unit {0}) → R → W → Outcome (Unit {0}) × State W R
run body extra w = body (record { world = w; common = empty_result; extra = extra })
