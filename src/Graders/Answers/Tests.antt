-- ===== src/Graders/Answers/Tests.antt =====
-- Runs of the choice of an answer from the turns.
use minirouter.Prelude.{
  ◌≡◌, refl, true, false, ◌||◌, none, [], ◌∷◌, Text, codes, text_eq, is_space, strip,
}
use minirouter.Prelude.Unicode.{plain, lower, decimal_value}
use minirouter.Py.{nothing}
use minirouter.Types.{worker, thinker, TurnRecord, Trajectory, max_turns}
use minirouter.Fugu.Execute.State.{StepResult, WorkflowRun}
use minirouter.Fugu.Reward
use minirouter.Graders.Boxed.{extract_boxed}
use minirouter.Graders.Number.{extract_last_number}
use minirouter.Graders.Json.{Loads}
use minirouter.Graders.Answers.{key_of, has_answer, committed_answer}
use minirouter.Graders.Answers.Committed.{
  grader, some_passes, has_answer-trajectory, committed_answer-Mirrors,
}

abbrev no_json : Loads
no_json s = none

abbrev math : Text
math = codes "math500"

abbrev boxed_turn : TurnRecord
boxed_turn = record {
  turn = 0;
  agent_name = codes "a";
  role = thinker;
  raw_output = codes "\\boxed{4}";
  processed_output = codes "\\boxed{4}";
  verdict = none;
  prompt_tokens = 1;
  completion_tokens = 1;
}

abbrev vague_turn : TurnRecord
vague_turn = record boxed_turn {
  turn = 1;
  role = worker;
  raw_output = codes "done";
  processed_output = codes "done";
}

abbrev traj : Trajectory
traj = record {
  task = record {
    task_id = codes "t";
    benchmark = math;
    prompt = codes "2 + 2";
    answer = nothing;
    meta = nothing;
  };
  turns = boxed_turn ∷ vague_turn ∷ [];
  final_answer = codes "done";
  reward = none;
  terminated_by = max_turns;
}

abbrev step_of : TurnRecord → StepResult
step_of t = record {
  step = t.turn;
  model_id = 0;
  model_name = t.agent_name;
  subtask = codes "s";
  output = t.processed_output;
  raw = t.raw_output;
  prompt_tokens = 1;
  completion_tokens = 1;
}

abbrev run : WorkflowRun
run = record {
  workflow = none;
  parsed_ok = true;
  steps_out = step_of boxed_turn ∷ step_of vague_turn ∷ [];
  final_answer = codes "done";
  raw_proposal = [];
  n_llm_calls = 2;
  prompt_tokens = 2;
  completion_tokens = 2;
  model_tokens = [];
}

turn_before : committed_answer plain no_json math traj ≡ codes "\\boxed{4}"
unfolding committed_answer strip lower text_eq decimal_value extract_boxed extract_last_number
    is_space
turn_before = refl

unknown_benchmark : has_answer plain no_json (codes "other") (codes "\\boxed{4}") ≡ false
unfolding has_answer strip lower text_eq
unknown_benchmark = refl

has_answer-trajectory_example :
    has_answer plain no_json (key_of plain math) (committed_answer plain no_json math traj) ≡ (
      has_answer plain no_json (key_of plain math) (codes "done")
      || some_passes
          (has_answer plain no_json (key_of plain math))
          (codes "\\boxed{4}" ∷ codes "done" ∷ []))
has_answer-trajectory_example = has_answer-trajectory plain no_json math traj

math-key : key_of plain math ≡ math
unfolding strip lower
math-key = refl

committed_answer-Mirrors_example :
    Reward.committed_answer (grader plain no_json (λ b t v. true)) math run
    ≡ committed_answer plain no_json math traj
committed_answer-Mirrors_example =
    committed_answer-Mirrors plain no_json (λ b t v. true) math run traj math-key refl refl
