-- ===== src/Conformance/Invariant.antt =====
-- What holds of the workers and the channels in every state that the tool can be in.
use sophons.Base.{
  ℕ, zero, suc, ◌+◌, ◌≤◌, arith, ◌≡◌, refl, String, str_eq, Bool, true, false, Option, none, some,
  List, [], ◌∷◌, ◌++◌,
}
use sophons.Base.Action.{Error}
use sophons.Conformance.{
  Worker, idle, running, reporting, finished, Pool, pool, Step, Steps, send, close, pass, fail,
  report, quit, stop, next, count, start, idle_workers,
}

abbrev pub sum : (Worker → ℕ) → List Worker → ℕ
sum f [] = 0
sum f (w ∷ ws) = f w + sum f ws

-- One worker goes on from `w` to `v`.
pub sum-change :
    (f : Worker → ℕ) (before after : List Worker) (w v : Worker)
    → sum f (before ++ (v ∷ after)) + f w ≡ sum f (before ++ (w ∷ after)) + f v
sum-change f [] after w v = omega arith
sum-change f (u ∷ before) after w v = omega (arith, sum-change f before after w v)

abbrev pub one_if : Bool → ℕ
one_if true = 1
one_if false = 0

-- A worker in a test, in a test of the playbook `q`, with an error to send, and at its end.
abbrev pub testing : Worker → ℕ
testing (running p) = 1
testing _ = 0

abbrev pub tested : String → Worker → ℕ
tested q (running p) = one_if (str_eq q p)
tested q _ = 0

abbrev pub sending : Worker → ℕ
sending (reporting p e) = 1
sending _ = 0

abbrev pub ending : Worker → ℕ
ending finished = 1
ending _ = 0

-- How often a playbook is in a list, and among the tests that have ended.
abbrev pub times : String → List String → ℕ
times q [] = 0
times q (p ∷ ps) = times q ps + one_if (str_eq q p)

abbrev pub times_ended : String → List (String × Option Error) → ℕ
times_ended q [] = 0
times_ended q ((p, r) ∷ ended) = times_ended q ended + one_if (str_eq q p)

-- How many tests have failed.
abbrev pub failures : List (String × Option Error) → ℕ
failures [] = 0
failures ((p, none) ∷ ended) = failures ended
failures ((p, some e) ∷ ended) = failures ended + 1

pub failures_bound : (ended : List (String × Option Error)) → failures ended ≤ count ended
failures_bound [] = omega arith
failures_bound ((p, none) ∷ ended) = omega (arith, failures_bound ended)
failures_bound ((p, some e) ∷ ended) = omega (arith, failures_bound ended)

count-append_one : {A : Type 0} (xs : List A) (x : A) → count (xs ++ (x ∷ [])) ≡ count xs + 1
count-append_one [] x = refl
count-append_one (y ∷ xs) x = rw (count-append_one xs x) refl

abbrev pub left_in : Bool → List String → ℕ
left_in true queue = count queue
left_in false queue = 0

abbrev pub ended_in : Bool → List Worker → ℕ
ended_in true ws = 0
ended_in false ws = sum ending ws

-- Each playbook is in the queue, in a test or has been tested, as often as it was given; the tests
-- that have failed are in errCh or with a worker that will send them; the channel is closed when the
-- queue is empty, and no worker ends before.
pub record IsSound (playbooks queue : List String) (closed : Bool) (ws : List Worker)
    (errors : List (String × Error)) (ended : List (String × Option Error)) : Type 0 where
  pub each_once :
      (q : String) → (times q queue + sum (tested q) ws) + times_ended q ended ≡ times q playbooks
  pub none_lost : (count queue + sum testing ws) + count ended ≡ count playbooks
  pub errors_kept : failures ended ≡ count errors + sum sending ws
  pub all_sent : left_in closed queue ≡ 0
  pub none_early : ended_in closed ws ≡ 0

abbrev pub Sound : List String → Pool → Type 0
Sound playbooks (pool queue closed ws errors ended) = IsSound playbooks queue closed ws errors ended

ended_in-change :
    (closed : Bool) (before after : List Worker) (w v : Worker)
    → ending v ≤ ending w
    → ended_in closed (before ++ (w ∷ after)) ≡ 0
    → ended_in closed (before ++ (v ∷ after)) ≡ 0
ended_in-change true before after w v small h = refl
ended_in-change false before after w v small h =
    omega (arith, sum-change ending before after w v, h)

pub step-Sound :
    {capacity : ℕ} (playbooks : List String) {s t : Pool}
    → Step capacity s t
    → Sound playbooks s
    → Sound playbooks t
step-Sound playbooks (send before after {p} {queue}) h = record {
  each_once =
      λ q. omega (arith, h.each_once q, sum-change (tested q) before after idle (running p));
  none_lost = omega (arith, h.none_lost, sum-change testing before after idle (running p));
  errors_kept = omega (arith, h.errors_kept, sum-change sending before after idle (running p));
  all_sent = refl;
  none_early = omega (arith, h.none_early, sum-change ending before after idle (running p));
}
step-Sound playbooks close h = record {
  each_once = h.each_once;
  none_lost = h.none_lost;
  errors_kept = h.errors_kept;
  all_sent = refl;
  none_early = refl;
}
step-Sound playbooks (pass before after p {closed = closed}) h = record {
  each_once =
      λ q. omega (arith, h.each_once q, sum-change (tested q) before after (running p) idle);
  none_lost = omega (arith, h.none_lost, sum-change testing before after (running p) idle);
  errors_kept = omega (arith, h.errors_kept, sum-change sending before after (running p) idle);
  all_sent = h.all_sent;
  none_early = ended_in-change closed before after _ idle (omega arith) h.none_early;
}
step-Sound playbooks (fail before after p e {closed = closed}) h = record {
  each_once = λ q.
      omega (arith, h.each_once q, sum-change (tested q) before after (running p) (reporting p e));
  none_lost =
      omega (arith, h.none_lost, sum-change testing before after (running p) (reporting p e));
  errors_kept =
      omega (arith, h.errors_kept, sum-change sending before after (running p) (reporting p e));
  all_sent = h.all_sent;
  none_early =
      ended_in-change closed before after (running p) (reporting p e) (omega arith) h.none_early;
}
step-Sound playbooks (report before after p e {closed = closed} {errors = errors} small) h =
    record {
      each_once = λ q.
          omega (arith, h.each_once q, sum-change (tested q) before after (reporting p e) idle);
      none_lost = omega (arith, h.none_lost, sum-change testing before after (reporting p e) idle);
      errors_kept = omega (
        arith,
        h.errors_kept,
        sum-change sending before after (reporting p e) idle,
        count-append_one errors (p, e),
      );
      all_sent = h.all_sent;
      none_early =
          ended_in-change closed before after (reporting p e) idle (omega arith) h.none_early;
    }
step-Sound playbooks (quit before after) h = record {
  each_once = λ q. omega (arith, h.each_once q, sum-change (tested q) before after idle finished);
  none_lost = omega (arith, h.none_lost, sum-change testing before after idle finished);
  errors_kept = omega (arith, h.errors_kept, sum-change sending before after idle finished);
  all_sent = refl;
  none_early = refl;
}

sum-idle : (f : Worker → ℕ) (n : ℕ) → f idle ≡ 0 → sum f (idle_workers n) ≡ 0
sum-idle f zero h = refl
sum-idle f (suc n) h = omega (arith, h, sum-idle f n h)

start-Sound : (n : ℕ) (playbooks : List String) → Sound playbooks (start n playbooks)
start-Sound n playbooks = record {
  each_once = λ q. omega (arith, sum-idle (tested q) n refl);
  none_lost = omega (arith, sum-idle testing n refl);
  errors_kept = omega (arith, sum-idle sending n refl);
  all_sent = refl;
  none_early = sum-idle ending n refl;
}

Steps-Sound :
    {capacity n : ℕ} (playbooks : List String) {s t : Pool}
    → Steps capacity n s t
    → Sound playbooks s
    → Sound playbooks t
Steps-Sound playbooks stop h = h
Steps-Sound playbooks (next step steps) h =
    Steps-Sound playbooks steps (step-Sound playbooks step h)

-- In every state that is reached from the start, each playbook is in the queue, in a test or has
-- been tested, as often as it was given; the failures are in errCh or with a worker that will send
-- them; the queue is empty once the channel is closed, and no worker ends before.
pub run-Sound :
    (workers n : ℕ) (playbooks : List String) {t : Pool}
    → Steps (count playbooks) n (start workers playbooks) t
    → Sound playbooks t
run-Sound workers n playbooks steps = Steps-Sound playbooks steps (start-Sound workers playbooks)
