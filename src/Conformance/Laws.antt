-- ===== src/Conformance/Laws.antt =====
-- What the tool reports when it is over.
use sophons.Base.{ℕ, ◌<◌, arith, ◌≡◌, ◌↔◌, refl, String, Bool, Option, List, [], ◌∷◌, ◌++◌}
use sophons.Base.Action.{Error, ok, err≢ok}
use sophons.Conformance.{
  Worker, idle, running, reporting, finished, Pool, pool, Step, Steps, send, close, pass, fail,
  report, quit, count, start, AllFinished, IsOver, outcome,
}
use sophons.Conformance.Invariant.{
  sum, tested, sending, times, times_ended, failures, IsSound, run-Sound,
}
use sophons.Conformance.Progress.{workers_of}

finished_sums : (f : Worker → ℕ) (ws : List Worker) → f finished ≡ 0 → AllFinished ws → sum f ws ≡ 0
finished_sums f [] h over = refl
finished_sums f (finished ∷ ws) h over = omega (arith, h, finished_sums f ws h over)
finished_sums f (idle ∷ ws) h over = absurd over
finished_sums f (running p ∷ ws) h over = absurd over
finished_sums f (reporting p e ∷ ws) h over = absurd over

outcome_iff : (errors : List (String × Error)) → (outcome errors ≡ ok tt) ↔ (count errors ≡ 0)
outcome_iff [] = (λ h. refl, λ h. refl)
outcome_iff (e ∷ errors) = (λ h. absurd (err≢ok h), λ h. absurd (omega (arith, h)))

times_none : (q : String) (queue : List String) → count queue ≡ 0 → times q queue ≡ 0
times_none q [] h = refl
times_none q (p ∷ queue) h = absurd (omega (arith, h))

-- When the tool is over, each playbook has been tested as often as it was given, and the tool
-- returns without an error exactly where no test has failed.
pub run_result :
    (workers n : ℕ) (playbooks queue : List String) (closed : Bool) (ws : List Worker)
    (errors : List (String × Error)) (ended : List (String × Option Error))
    → Steps (count playbooks) n (start workers playbooks) (pool queue closed ws errors ended)
    → IsOver (pool queue closed ws errors ended)
    → ((q : String) → times_ended q ended ≡ times q playbooks)
      × ((outcome errors ≡ ok tt) ↔ (failures ended ≡ 0))
run_result workers n playbooks queue closed ws errors ended steps (done, over) =
    let h : IsSound playbooks queue closed ws errors ended = run-Sound workers n playbooks steps in
    let empty : count queue ≡ 0 = rw done at h.all_sent in
    let (to, from) = outcome_iff errors in
    (
      λ q.
          omega
            (arith, h.each_once q, times_none q queue empty, finished_sums (tested q) ws refl over),
      (
        λ e. omega (arith, to e, h.errors_kept, finished_sums sending ws refl over),
        λ e. from (omega (arith, e, h.errors_kept)),
      ),
    )

has_worker : (before after : List Worker) (w : Worker) → 0 < count (before ++ (w ∷ after))
has_worker [] after w = omega arith
has_worker (u ∷ before) after w = omega (arith, has_worker before after w)

abbrev queue_of : Pool → List String
queue_of (pool queue closed ws errors ended) = queue

workerless_step :
    {capacity : ℕ} {s t : Pool}
    → Step capacity s t
    → count (workers_of s) ≡ 0
    → count (queue_of s) ≡ 0
workerless_step (send before after) none =
    absurd (omega (arith, has_worker before after idle, none))
workerless_step close none = refl
workerless_step (pass before after p) none =
    absurd (omega (arith, has_worker before after (running p), none))
workerless_step (fail before after p e) none =
    absurd (omega (arith, has_worker before after (running p), none))
workerless_step (report before after p e small) none =
    absurd (omega (arith, has_worker before after (reporting p e), none))
workerless_step (quit before after) none = refl

-- Without workers, a tool that has a playbook to test makes no step, not even to close the channel.
pub no_workers_stuck :
    (p : String) (playbooks : List String) (capacity : ℕ) (t : Pool)
    → ¬ (Step capacity (start 0 (p ∷ playbooks)) t)
no_workers_stuck p playbooks capacity t step = omega (arith, workerless_step step refl)
