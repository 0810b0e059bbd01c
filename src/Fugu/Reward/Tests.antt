-- ===== src/Fugu/Reward/Tests.antt =====
-- A run whose last step has no answer.
use minirouter.Prelude.{◌≡◌, refl, true, false, none, [], ◌∷◌, codes, text_eq}
use minirouter.Py.{nothing}
use minirouter.Types.{Task}
use minirouter.Fugu.Execute.State.{StepResult, WorkflowRun}
use minirouter.Fugu.Reward.{Grader, committed_answer, training_reward, full, parse_fail}

abbrev exact : Grader
exact = record {
  has_answer = λ benchmark text. text_eq text (codes "42");
  solves = λ benchmark text answer. text_eq text (codes "42");
}

abbrev solved : StepResult
solved = record {
  step = 0;
  model_id = 0;
  model_name = codes "glm";
  subtask = codes "a";
  output = codes "42";
  raw = codes "42";
  prompt_tokens = 3;
  completion_tokens = 1;
}

abbrev summed_up : StepResult
summed_up = record solved { step = 1; output = codes "done"; raw = codes "done" }

abbrev run : WorkflowRun
run = record {
  workflow = none;
  parsed_ok = true;
  steps_out = solved ∷ summed_up ∷ [];
  final_answer = codes "done";
  raw_proposal = [];
  n_llm_calls = 2;
  prompt_tokens = 6;
  completion_tokens = 2;
  model_tokens = [];
}

abbrev task : Task
task = record {
  task_id = codes "t";
  benchmark = codes "math500";
  prompt = codes "6 * 7?";
  answer = nothing;
  meta = nothing;
}

last_solved : committed_answer exact (codes "math500") run ≡ codes "42"
unfolding committed_answer text_eq
last_solved = refl

rewarded : training_reward exact run task ≡ full
unfolding training_reward committed_answer text_eq
rewarded = refl

unparsed : training_reward exact (record run { parsed_ok = false }) task ≡ parse_fail
unfolding training_reward
unparsed = refl
