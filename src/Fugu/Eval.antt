-- ===== src/Fugu/Eval.antt =====
-- src/trinity/fugu/eval.py, `evaluate`: the tasks run concurrently under a semaphore, and the event
-- loop switches between them at their awaits only. A step is what one task does up to its next
-- await, in any order of the tasks; what a rollout returns is open. Executions in which a rollout
-- raises are left out, and so is the order in which the semaphore wakes its waiters: any may be next.
pub mod Bounds
pub mod Votes
mod Tests
use minirouter.Prelude.{
  ℕ, zero, suc, ◌+◌, ◌*◌, ◌≤◌, ◌<◌, ◌≡◌, Bool, true, false, not, ◌&&◌, ◌||◌, Option, none, some,
  List, [], ◌∷◌, ◌++◌, map, length, ltb, if◌then◌else◌,
}
use minirouter.Types.{Task}
use minirouter.Fugu.Execute.State.{WorkflowRun}
use minirouter.Fugu.Reward.{Grader, is_correct}
use minirouter.Fugu.Grpo.{Money, CostMeter, add_run}

-- Where `_one` of a task stands: not begun, at the semaphore, at a rollout with the runs so far, or
-- returned, at once or with its runs.
pub data Phase : Type 0 where
  waiting queued skipped : Phase
  awaiting : List WorkflowRun → Phase
  left : List WorkflowRun → Phase

-- one entry of the phases per task; `aborted` is `aborted["v"]`
pub record State (M : Type 0) : Type 0 where
  pub meter : CostMeter M
  pub aborted : Bool
  pub phases : List Phase

-- A permit is held during the rollouts.
abbrev pub permit : Phase → ℕ
permit (awaiting runs) = 1
permit _ = 0

unfoldable pub in_flight : List Phase → ℕ
in_flight [] = 0
in_flight (p ∷ ps) = permit p + in_flight ps

-- `max(1, concurrency)`
abbrev pub permits : ℕ → ℕ
permits zero = 1
permits (suc n) = suc n

-- The head of the loop over the repetitions: the next rollout, or the end of the ballot.
unfoldable pub loop_head : ℕ → Bool → List WorkflowRun → Phase
loop_head reps aborted runs =
    if ltb (length runs) reps && not aborted then awaiting runs else left runs

-- the state with one task's phase between those of the others
abbrev pub place : {M : Type 0} → CostMeter M → Bool → List Phase → Phase → List Phase → State M
place meter aborted front p back = record {
  meter = meter;
  aborted = aborted;
  phases = front ++ p ∷ back;
}

module _ {M : Type 0} (money : Money M) (reps concurrency : ℕ) where
  -- What a task does with a rollout that has returned, on the meter with that run.
  unfoldable pub resolved :
      CostMeter M → Bool → List Phase → List WorkflowRun → List Phase → State M
  unfolding loop_head
  resolved meter aborted front runs back =
      if meter.aborted
      then place meter true front (left runs) back
      else place meter aborted front (loop_head reps aborted runs) back

  pub data Step : State M → State M → Type 0 where
    skip :
        (m : CostMeter M) (front back : List Phase)
        → Step (place m true front waiting back) (place m true front skipped back)
    begin :
        (m : CostMeter M) (front back : List Phase)
        → in_flight front + in_flight back < permits concurrency
        → Step
            (place m false front waiting back)
            (place m false front (loop_head reps false []) back)
    line_up :
        (m : CostMeter M) (front back : List Phase)
        → permits concurrency ≤ in_flight front + in_flight back
        → Step (place m false front waiting back) (place m false front queued back)
    admit :
        (m : CostMeter M) (a : Bool) (front back : List Phase)
        → in_flight front + in_flight back < permits concurrency
        → Step (place m a front queued back) (place m a front (loop_head reps a []) back)
    resolve :
        (m : CostMeter M) (a : Bool) (front back : List Phase) (runs : List WorkflowRun)
        (run : WorkflowRun)
        → Step
            (place m a front (awaiting runs) back)
            (resolved (add_run money run m) a front (runs ++ run ∷ []) back)

  infixr 5 ◌then◌
  pub data Steps : State M → State M → Type 0 where
    stay : {s : State M} → Steps s s
    ◌then◌ : {s t r : State M} → Step s t → Steps t r → Steps s r

-- `asyncio.gather` over the tasks
unfoldable pub all_waiting : List Task → List Phase
all_waiting [] = []
all_waiting (t ∷ ts) = waiting ∷ all_waiting ts

abbrev pub start : {M : Type 0} → CostMeter M → List Task → State M
start meter tasks = record { meter = meter; aborted = false; phases = all_waiting tasks }

-- sum(votes)
unfoldable pub votes : Grader → Task → List WorkflowRun → ℕ
unfolding is_correct
votes grader task [] = 0
votes grader task (r ∷ rs) =
    let n = votes grader task rs in if is_correct grader r task then n + 1 else n

-- `per_query_binary[task_id]`, where there is a ballot
unfoldable pub query_binary : Grader → Task → Phase → Option Bool
unfolding votes
query_binary grader task (left (r ∷ rs)) =
    some (ltb (length (r ∷ rs)) (2 * votes grader task (r ∷ rs)))
query_binary grader task _ = none
