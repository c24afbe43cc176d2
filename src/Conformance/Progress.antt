-- ===== src/Conformance/Progress.antt =====
-- The tool is never stuck before its end, where it has a worker, and makes a bounded number of steps.
use sophons.Base.{
  ℕ, zero, suc, ◌+◌, ◌*◌, ◌≤◌, ◌<◌, arith, ◌≡◌, ◌⊎◌, inl, inr, refl, String, Bool, true, false,
  Option, List, [], ◌∷◌, ◌++◌,
}
use sophons.Base.Action.{Error}
use sophons.Conformance.{
  Worker, idle, running, reporting, finished, Pool, pool, Step, Steps, send, close, pass, fail,
  report, quit, stop, next, count, start, idle_workers, AllFinished, IsOver,
}
use sophons.Conformance.Invariant.{
  sum, sum-change, sending, ending, ended_in, Sound, IsSound, failures_bound, step-Sound, run-Sound,
}

-- A worker that has not ended.
abbrev pub Unfinished : Worker → Type 0
Unfinished finished = ⊥
Unfinished _ = Unit

record Found (ws : List Worker) : Type 0 where
  before : List Worker
  worker : Worker
  after : List Worker
  is_at : ws ≡ before ++ (worker ∷ after)
  unfinished : Unfinished worker

later : (v : Worker) (ws : List Worker) → Found ws → Found (v ∷ ws)
later v ws f = record {
  before = v ∷ f.before;
  worker = f.worker;
  after = f.after;
  is_at = rw f.is_at refl;
  unfinished = f.unfinished;
}

here : (w : Worker) (ws : List Worker) → Unfinished w → Found (w ∷ ws)
here w ws u = record { before = []; worker = w; after = ws; is_at = refl; unfinished = u }

find : (ws : List Worker) → AllFinished ws ⊎ Found ws
find [] = inl tt
find (idle ∷ ws) = inr (here idle ws tt)
find (running p ∷ ws) = inr (here (running p) ws tt)
find (reporting p e ∷ ws) = inr (here (reporting p e) ws tt)
find (finished ∷ ws) = elim (find ws) [ inl h ↦ inl h | inr f ↦ inr (later finished ws f) ]

abbrev pub workers_of : Pool → List Worker
workers_of (pool queue closed ws errors ended) = ws

abbrev GoesOn : List String → Pool → Type 0
GoesOn playbooks s = (t : Pool) × Step (count playbooks) s t

worker-GoesOn :
    (playbooks : List String) (w : Worker) (before after : List Worker) (queue : List String)
    (closed : Bool) (errors : List (String × Error)) (ended : List (String × Option Error))
    → Unfinished w
    → IsSound playbooks queue closed (before ++ (w ∷ after)) errors ended
    → GoesOn playbooks (pool queue closed (before ++ (w ∷ after)) errors ended)
worker-GoesOn playbooks idle before after (p ∷ queue) false errors ended u h =
    (_, send before after)
worker-GoesOn playbooks idle before after (p ∷ queue) true errors ended u h =
    absurd (omega (arith, h.all_sent))
worker-GoesOn playbooks idle before after [] false errors ended u h = (_, close)
worker-GoesOn playbooks idle before after [] true errors ended u h = (_, quit before after)
worker-GoesOn playbooks (running p) before after queue closed errors ended u h =
    (_, pass before after p)
worker-GoesOn playbooks (reporting p e) before after queue closed errors ended u h = (
  _,
  report before after p e (
      omega (
        arith,
        h.errors_kept,
        h.none_lost,
        failures_bound ended,
        sum-change sending before after (reporting p e) idle,
      )),
)
worker-GoesOn playbooks finished before after queue closed errors ended u h = absurd u

finished_sum : (ws : List Worker) → AllFinished ws → sum ending ws ≡ count ws
finished_sum [] h = refl
finished_sum (finished ∷ ws) h = omega (arith, finished_sum ws h)
finished_sum (idle ∷ ws) h = absurd h
finished_sum (running p ∷ ws) h = absurd h
finished_sum (reporting p e ∷ ws) h = absurd h

closed_by_now :
    (closed : Bool) (ws : List Worker)
    → ended_in closed ws ≡ 0
    → AllFinished ws
    → 0 < count ws
    → closed ≡ true
closed_by_now true ws h over some_worker = refl
closed_by_now false ws h over some_worker = absurd (omega (arith, finished_sum ws over, h))

-- In a sound state with a worker, the tool is at its end or can go on; a worker that has an error to
-- send always can.
progress :
    (playbooks : List String) (s : Pool)
    → 0 < count (workers_of s)
    → Sound playbooks s
    → IsOver s ⊎ GoesOn playbooks s
progress playbooks (pool queue closed ws errors ended) some_worker h = elim (find ws) [
  | inl over ↦ inl (closed_by_now closed ws h.none_early over some_worker, over)
  | inr f ↦ inr (
      rw f.is_at (
        worker-GoesOn playbooks f.worker f.before f.after queue closed errors ended f.unfinished
          (rw f.is_at at h)))
]

-- How many steps are left, at most.
abbrev pub weight : Worker → ℕ
weight idle = 1
weight (running p) = 3
weight (reporting p e) = 2
weight finished = 0

abbrev pub open_one : Bool → ℕ
open_one true = 0
open_one false = 1

abbrev pub steps_left : Pool → ℕ
steps_left (pool queue closed ws errors ended) = 3 * count queue + open_one closed + sum weight ws

step_counts : {capacity : ℕ} {s t : Pool} → Step capacity s t → steps_left t + 1 ≤ steps_left s
step_counts (send before after {p}) = omega (arith, sum-change weight before after idle (running p))
step_counts close = omega arith
step_counts (pass before after p) = omega (arith, sum-change weight before after (running p) idle)
step_counts (fail before after p e) =
    omega (arith, sum-change weight before after (running p) (reporting p e))
step_counts (report before after p e small) =
    omega (arith, sum-change weight before after (reporting p e) idle)
step_counts (quit before after) = omega (arith, sum-change weight before after idle finished)

Steps-bound : {capacity n : ℕ} {s t : Pool} → Steps capacity n s t → n + steps_left t ≤ steps_left s
Steps-bound stop = omega arith
Steps-bound (next step steps) = omega (arith, step_counts step, Steps-bound steps)

idle_weight : (n : ℕ) → sum weight (idle_workers n) ≡ n
idle_weight zero = refl
idle_weight (suc n) = omega (arith, idle_weight n)

-- The tool makes at most three steps for each playbook, one for each worker and one to close the
-- channel, in whatever order they come.
pub run_bounded :
    (workers n : ℕ) (playbooks : List String) {t : Pool}
    → Steps (count playbooks) n (start workers playbooks) t
    → n ≤ 3 * count playbooks + 1 + workers
run_bounded workers n playbooks steps = omega (arith, Steps-bound steps, idle_weight workers)

same_count :
    (before after : List Worker) (w v : Worker)
    → count (before ++ (v ∷ after)) ≡ count (before ++ (w ∷ after))
same_count [] after w v = refl
same_count (u ∷ before) after w v = omega (arith, same_count before after w v)

step_workers :
    {capacity : ℕ} {s t : Pool} → Step capacity s t → count (workers_of t) ≡ count (workers_of s)
step_workers (send before after {p}) = same_count before after idle (running p)
step_workers close = refl
step_workers (pass before after p) = same_count before after (running p) idle
step_workers (fail before after p e) = same_count before after (running p) (reporting p e)
step_workers (report before after p e small) = same_count before after (reporting p e) idle
step_workers (quit before after) = same_count before after idle finished

Steps-workers :
    {capacity n : ℕ} {s t : Pool}
    → Steps capacity n s t
    → count (workers_of t) ≡ count (workers_of s)
Steps-workers stop = refl
Steps-workers (next step steps) = omega (arith, step_workers step, Steps-workers steps)

idle_count : (n : ℕ) → count (idle_workers n) ≡ n
idle_count zero = refl
idle_count (suc n) = omega (arith, idle_count n)

abbrev pub Ends : List String → Pool → Type 0
Ends playbooks s = (n : ℕ) × (t : Pool) × Steps (count playbooks) n s t × IsOver t

Ends-within :
    (fuel : ℕ) (playbooks : List String) (s : Pool)
    → steps_left s ≤ fuel
    → 0 < count (workers_of s)
    → Sound playbooks s
    → Ends playbooks s
Ends-within zero playbooks s enough some_worker h = elim (progress playbooks s some_worker h) [
  | inl over ↦ (0, s, stop, over)
  | inr (t, step) ↦ absurd (omega (arith, step_counts step))
]
Ends-within (suc fuel) playbooks s enough some_worker h =
    elim (progress playbooks s some_worker h) [
      | inl over ↦ (0, s, stop, over)
      | inr (t, step) ↦
          let (n, u, steps, over) =
            Ends-within fuel playbooks t (omega (arith, step_counts step))
              (omega (arith, step_workers step)) (step-Sound playbooks step h) in
          (n + 1, u, next step steps, over)
    ]

-- With a worker or more, the tool can reach its end from every state that it can be in: no order of
-- the steps before leaves it stuck.
pub run-Ends :
    (workers n : ℕ) (playbooks : List String) (t : Pool)
    → 0 < workers
    → Steps (count playbooks) n (start workers playbooks) t
    → Ends playbooks t
run-Ends workers n playbooks t some_worker steps =
    Ends-within (steps_left t) playbooks t (omega arith)
      (omega (arith, Steps-workers steps, idle_count workers)) (run-Sound workers n playbooks steps)
