-- ===== src/Conformance.antt =====
-- cmd/conformance/main.go: the tool that runs every playbook by the two programs, on a number of
-- workers. The goroutines of `run` are a step relation: any one that can go on may do so next.
pub mod Invariant
pub mod Harness
pub mod Test
pub mod Progress
pub mod Laws
use sophons.Base.{
  ℕ, zero, suc, ◌+◌, ◌<◌, ◌≡◌, String, Bool, true, false, Option, none, some, List, [], ◌∷◌, ◌++◌,
}
use sophons.Base.Action.{Error, message, Outcome, ok, err}

abbrev pub count {ℓ} : {A : Type ℓ} → List A → ℕ
count [] = 0
count (x ∷ xs) = count xs + 1

-- What a worker is at: `range playbookCh`, runConformanceTest, the send of its error, or its end.
pub data Worker : Type 0 where
  idle : Worker
  running : String → Worker
  reporting : String → Error → Worker
  finished : Worker

-- The playbooks that main has still to send, whether it has closed the channel, the workers, what
-- errCh holds, and what the tests that have ended have given.
pub data Pool : Type 0 where
  pool :
      List String → Bool → List Worker → List (String × Error) → List (String × Option Error) → Pool

-- One step. `capacity` is that of errCh.
pub data Step (capacity : ℕ) : Pool → Pool → Type 0 where
  -- playbookCh <- playbook, which an idle worker receives
  send :
      (before after : List Worker) {p : String} {queue : List String}
      {errors : List (String × Error)} {ended : List (String × Option Error)}
      → Step capacity
          (pool (p ∷ queue) false (before ++ (idle ∷ after)) errors ended)
          (pool queue false (before ++ (running p ∷ after)) errors ended)
  -- close(playbookCh)
  close :
      {workers : List Worker} {errors : List (String × Error)}
      {ended : List (String × Option Error)}
      → Step capacity (pool [] false workers errors ended) (pool [] true workers errors ended)
  pass :
      (before after : List Worker) (p : String) {queue : List String} {closed : Bool}
      {errors : List (String × Error)} {ended : List (String × Option Error)}
      → Step capacity
          (pool queue closed (before ++ (running p ∷ after)) errors ended)
          (pool queue closed (before ++ (idle ∷ after)) errors ((p, none) ∷ ended))
  fail :
      (before after : List Worker) (p : String) (e : Error) {queue : List String} {closed : Bool}
      {errors : List (String × Error)} {ended : List (String × Option Error)}
      → Step capacity
          (pool queue closed (before ++ (running p ∷ after)) errors ended)
          (pool queue closed (before ++ (reporting p e ∷ after)) errors ((p, some e) ∷ ended))
  -- errCh <- err, which blocks where the channel is full
  report :
      (before after : List Worker) (p : String) (e : Error) {queue : List String} {closed : Bool}
      {errors : List (String × Error)} {ended : List (String × Option Error)}
      → count errors < capacity
      → Step capacity
          (pool queue closed (before ++ (reporting p e ∷ after)) errors ended)
          (pool queue closed (before ++ (idle ∷ after)) (errors ++ ((p, e) ∷ [])) ended)
  -- the end of the range over a closed channel
  quit :
      (before after : List Worker) {errors : List (String × Error)}
      {ended : List (String × Option Error)}
      → Step capacity
          (pool [] true (before ++ (idle ∷ after)) errors ended)
          (pool [] true (before ++ (finished ∷ after)) errors ended)

-- The steps from one state to another, in their order.
pub data Steps (capacity : ℕ) : ℕ → Pool → Pool → Type 0 where
  stop : {s : Pool} → Steps capacity 0 s s
  next :
      {n : ℕ} {s t u : Pool} → Step capacity s t → Steps capacity n t u → Steps capacity (n + 1) s u

abbrev pub idle_workers : ℕ → List Worker
idle_workers zero = []
idle_workers (suc n) = idle ∷ idle_workers n

-- The state in which run starts to send, with `-concurrency n`.
abbrev pub start : ℕ → List String → Pool
start n playbooks = pool playbooks false (idle_workers n) [] []

abbrev pub AllFinished : List Worker → Type 0
AllFinished [] = Unit
AllFinished (finished ∷ ws) = AllFinished ws
AllFinished (_ ∷ ws) = ⊥

-- The state in which wg.Wait returns.
abbrev pub IsOver : Pool → Type 0
IsOver (pool queue closed workers errors ended) = (closed ≡ true) × AllFinished workers

-- What run returns of the errors that it collects.
abbrev pub outcome : List (String × Error) → Outcome (Unit {0})
outcome [] = ok tt
outcome (e ∷ errors) = err (message "the following tests failed")
