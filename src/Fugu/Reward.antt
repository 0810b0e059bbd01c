-- ===== src/Fugu/Reward.antt =====
-- src/trinity/fugu/reward.py: the text of a run that is graded, its correctness, and the reward in
-- training. The grader of src/trinity/orchestration/reward.py is a parameter: whether a text has an
-- answer of the benchmark's shape, and whether its score reaches 1.
pub mod Laws
mod Tests
use minirouter.Prelude.{
  ℕ, Bool, true, false, Option, none, some, List, [], ◌∷◌, reverse, Text, if◌then◌else◌,
}
use minirouter.Py.{Value}
use minirouter.Types.{Task}
use minirouter.Fugu.Execute.State.{StepResult, WorkflowRun}

-- `has_answer(benchmark, text)`, and `score_text(benchmark, text, answer) >= 1.0`
pub record Grader : Type 0 where
  pub has_answer : Text → Text → Bool
  pub solves : Text → Text → Value → Bool

-- the loop over `reversed(run.steps)`
unfoldable pub last_answer : Grader → Text → List StepResult → Text → Text
last_answer g benchmark [] final = final
last_answer g benchmark (step ∷ rest) final =
    if g.has_answer benchmark step.output then step.output else last_answer g benchmark rest final

unfoldable pub committed_answer : Grader → Text → WorkflowRun → Text
unfolding last_answer
committed_answer g benchmark run =
    if g.has_answer benchmark run.final_answer
    then run.final_answer
    else last_answer g benchmark (reverse run.steps_out) run.final_answer

unfoldable pub is_correct : Grader → WorkflowRun → Task → Bool
unfolding committed_answer
is_correct g run task =
    if run.parsed_ok
    then g.solves task.benchmark (committed_answer g task.benchmark run) task.answer
    else false

-- The rewards are floats that are only chosen from: `parse_fail`, `partial`, or 1.0.
pub data Reward : Type 0 where
  parse_fail partial full : Reward

unfoldable pub training_reward : Grader → WorkflowRun → Task → Reward
unfolding is_correct
training_reward g run task =
    if run.parsed_ok then (if is_correct g run task then full else partial) else parse_fail
