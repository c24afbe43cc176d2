-- ===== src/Tests/Pools.antt =====
-- The tool for conformance tests with one worker and one playbook, which fails.
use sophons.Base.{arith, ◌+◌, ◌*◌, ◌≤◌, ◌≡◌, ◌↔◌, refl, String, true, false, some, List, [], ◌∷◌}
use sophons.Base.Action.{Error, message, ok}
use sophons.Conformance.{
  running, finished, Pool, pool, Steps, send, close, fail, report, quit, stop, next, count, start,
  outcome,
}
use sophons.Conformance.Invariant.{Sound, times, times_ended, failures, run-Sound}
use sophons.Conformance.Progress.{Ends, run-Ends, run_bounded}
use sophons.Conformance.Laws.{run_result}

abbrev one : List String
one = "playbook-apt.yaml" ∷ []

abbrev reason : Error
reason = message "exit status 1"

abbrev in_test : Pool
in_test = pool [] false (running "playbook-apt.yaml" ∷ []) [] []

abbrev over : Pool
over =
    pool [] true (finished ∷ []) (("playbook-apt.yaml", reason) ∷ [])
      (("playbook-apt.yaml", some reason) ∷ [])

first_step : Steps 1 1 (start 1 one) in_test
first_step = next (send [] []) stop

failing_run : Steps 1 5 (start 1 one) over
failing_run = next (send [] []) (
    next close (
      next (fail [] [] "playbook-apt.yaml" reason)
        (next (report [] [] "playbook-apt.yaml" reason (omega arith)) (next (quit [] []) stop))))

run-Ends_example : Ends one in_test
run-Ends_example = run-Ends 1 1 one in_test (omega arith) first_step

run-Sound_example : Sound one over
run-Sound_example = run-Sound 1 5 one failing_run

run_bounded_example : 5 ≤ 3 * count one + 1 + 1
run_bounded_example = run_bounded 1 5 one failing_run

run_result_example :
    ((q : String) → times_ended q (("playbook-apt.yaml", some reason) ∷ []) ≡ times q one)
    × ((outcome (("playbook-apt.yaml", reason) ∷ []) ≡ ok tt)
        ↔ (failures (("playbook-apt.yaml", some reason) ∷ []) ≡ 0))
run_result_example =
    run_result 1 5 one [] true (finished ∷ []) (("playbook-apt.yaml", reason) ∷ [])
      (("playbook-apt.yaml", some reason) ∷ []) failing_run (refl, tt)
