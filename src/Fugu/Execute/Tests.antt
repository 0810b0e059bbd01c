-- ===== src/Fugu/Execute/Tests.antt =====
-- A run in which a worker answers, and a self-call runs a sub-workflow of one step.
use minirouter.Prelude.{
  ℕ, ◌+◌, ◌*◌, ◌≡◌, ◌≤◌, refl, true, false, Option, none, some, List, [], ◌∷◌, map, Text, codes,
  text_eq, lstrip, strip, if◌then◌else◌,
}
use minirouter.Prelude.Unicode.{plain, is_word, lower}
use minirouter.Py.{Value, nothing, pos, int, str, list, nil, cons}
use minirouter.Types.{Task}
use minirouter.Roles.Postprocess.{postprocess}
use minirouter.Session.{unknown}
use minirouter.Fugu.Extract.{list_candidates}
use minirouter.Fugu.Gate.{
  all, steps, Workflow, normalize_access, normalize_text, normalize_items, access_indices,
  sort_unique, names_query, validate_workflow_lists, parse_workflow, try_models, check_step,
  model_of, subtask_of,
}
use minirouter.Fugu.Execute.State.{
  Tokens, StepResult, WorkflowRun, finish_step, count_call, count_run, conductor_key,
}
use minirouter.Fugu.Execute.Loop.{
  Proposal, Services, Settings, returns, call_failed, worker_call, worker_step, self_step, run_step,
  run_steps, run_workflow, propose_and_run, last_output,
}
use minirouter.Fugu.Execute.Meter.{Logs}
use minirouter.Fugu.Execute.Tokens.{IsMetered, propose_and_run-IsMetered}
use minirouter.Fugu.Execute.Counts.{IsRunOf, run_workflow-IsRunOf}
use minirouter.Fugu.Execute.Calls.{step_bound, Counts, propose_and_run-few}

abbrev evaluator : Text → Option Value
evaluator s =
    if text_eq s (codes "[0,1]")
    then some (list (cons (int (pos 0)) (cons (int (pos 1)) nil)))
    else if text_eq s (codes "['a','b']")
    then some (list (cons (str (codes "a")) (cons (str (codes "b")) nil)))
    else if text_eq s (codes "[[],'all']")
    then some (list (cons (list nil) (cons (str (codes "all")) nil)))
    else if text_eq s (codes "[0]")
    then some (list (cons (int (pos 0)) nil))
    else if text_eq s (codes "['c']")
    then some (list (cons (str (codes "c")) nil))
    else if text_eq s (codes "[]")
    then some (list nil)
    else none

abbrev first_proposal : Proposal
first_proposal = record {
  text = codes "model_id=[0,1] subtasks=['a','b'] access_list=[[],'all']";
  prompt_tokens = 10;
  completion_tokens = 20;
}

abbrev later_proposal : Proposal
later_proposal = record {
  text = codes "model_id=[0] subtasks=['c'] access_list=[]";
  prompt_tokens = 11;
  completion_tokens = 21;
}

-- The Conductor's first proposal, whose second step is a self-call, or on a used log the later one.
abbrev next_proposal : Tokens → Proposal
next_proposal [] = first_proposal
next_proposal (t ∷ ts) = later_proposal

-- The state is the log of the calls.
abbrev services : Services Tokens
services = record {
  chat_signature = unknown;
  chat = λ name messages kwargs w. (
    some (record { text = codes "42"; prompt_tokens = 3; completion_tokens = 1 }),
    (name, 3, 1) ∷ w,
  );
  propose = λ task names sample w.
      let p = next_proposal w in
      (some p, (conductor_key, p.prompt_tokens, p.completion_tokens) ∷ w);
}

-- The Conductor answers the first time only.
abbrev failing : Services (Tokens × ℕ)
failing = record {
  chat_signature = unknown;
  chat = λ name messages kwargs w. (
    some (record { text = codes "42"; prompt_tokens = 3; completion_tokens = 1 }),
    ((name, 3, 1) ∷ w.0, w.1 + 1),
  );
  propose = λ task names sample w. (
    elim w.0 [ [] ↦ some first_proposal | t ∷ ts ↦ none ],
    ((conductor_key, 10, 20) ∷ w.0, w.1 + 1),
  );
}

abbrev pool : List Text
pool = codes "glm" ∷ []

abbrev settings : Settings
settings = record { temperature = nothing; max_tokens = 64; reasoning = none; client = none }

abbrev task : Task
task = record {
  task_id = codes "t";
  benchmark = codes "math500";
  prompt = codes "6 * 7?";
  answer = nothing;
  meta = nothing;
}

abbrev two_steps : Workflow
two_steps =
    record { model_id = 0; subtask = codes "a"; access = steps [] }
    ∷ record { model_id = 1; subtask = codes "b"; access = all }
    ∷ []

abbrev run : WorkflowRun
run = record {
  workflow = some two_steps;
  parsed_ok = true;
  steps_out =
      record {
        step = 0;
        model_id = 0;
        model_name = codes "glm";
        subtask = codes "a";
        output = codes "42";
        raw = codes "42";
        prompt_tokens = 3;
        completion_tokens = 1;
      }
      ∷ record {
        step = 1;
        model_id = 1;
        model_name = codes "self";
        subtask = codes "b";
        output = codes "42";
        raw = codes "42";
        prompt_tokens = 3;
        completion_tokens = 1;
      }
      ∷ [];
  final_answer = codes "42";
  raw_proposal = [];
  n_llm_calls = 3;
  prompt_tokens = 17;
  completion_tokens = 23;
  model_tokens = (codes "glm", 6, 2) ∷ (conductor_key, 11, 21) ∷ [];
}

abbrev whole_run : WorkflowRun
whole_run = record run {
  raw_proposal = first_proposal.text;
  n_llm_calls = 4;
  prompt_tokens = 27;
  completion_tokens = 43;
  model_tokens = (codes "glm", 6, 2) ∷ (conductor_key, 21, 41) ∷ [];
}

abbrev earlier : Tokens
earlier = (conductor_key, 10, 20) ∷ []

recursed :
    (run_workflow plain evaluator services pool settings true 1 two_steps task earlier).0
    ≡ returns run
unfolding run_workflow run_steps run_step self_step worker_step finish_step count_call count_run
    postprocess parse_workflow try_models validate_workflow_lists check_step model_of subtask_of
    normalize_access normalize_text normalize_items access_indices sort_unique list_candidates
    is_word lower lstrip strip names_query worker_call text_eq
recursed = refl

abbrev whole_log : Tokens
whole_log =
    (codes "glm", 3, 1)
    ∷ (conductor_key, 11, 21)
    ∷ (codes "glm", 3, 1)
    ∷ (conductor_key, 10, 20)
    ∷ []

proposed :
    propose_and_run plain evaluator services pool settings false 1 task []
    ≡ (returns whole_run, whole_log)
unfolding propose_and_run run_workflow run_steps run_step self_step worker_step finish_step
    count_call count_run postprocess parse_workflow try_models validate_workflow_lists check_step
    model_of subtask_of normalize_access normalize_text normalize_items access_indices sort_unique
    list_candidates is_word lower lstrip strip names_query worker_call text_eq
proposed = refl

run_workflow-IsRunOf_example :
    IsRunOf two_steps run
    × (run.final_answer
        ≡ last_output plain evaluator services pool settings
            (map (λ (r : StepResult). r.output) run.steps_out))
run_workflow-IsRunOf_example =
    run_workflow-IsRunOf plain evaluator services pool settings true 1 two_steps task earlier
      recursed

services-Logs : Logs services (λ w. w)
services-Logs = record {
  chats = λ name messages kwargs w {res} {w'} e. cc;
  proposes = λ task names sample w {prop} {w'} e. cc;
}

propose_and_run-IsMetered_example : IsMetered [] whole_log whole_run
propose_and_run-IsMetered_example =
    propose_and_run-IsMetered plain evaluator services pool settings (λ w. w) services-Logs false 1
      task [] proposed

failing-Counts : Counts failing (λ w. w.1)
failing-Counts = record {
  chats = λ name messages kwargs w. refl;
  proposes = λ task names sample w. refl;
}

-- The self-call raises after three calls.
raises :
    propose_and_run plain evaluator failing pool settings false 1 task ([], 0)
    ≡ (call_failed, ((conductor_key, 10, 20) ∷ (codes "glm", 3, 1) ∷ earlier, 3))
unfolding propose_and_run run_workflow run_steps run_step self_step worker_step finish_step
    count_call count_run postprocess parse_workflow try_models validate_workflow_lists check_step
    model_of subtask_of normalize_access normalize_text normalize_items access_indices sort_unique
    list_candidates is_word lower lstrip strip names_query worker_call text_eq
raises = refl

propose_and_run-few_example :
    (propose_and_run plain evaluator failing pool settings false 1 task ([], 0)).1.1
    ≤ 0 + (1 + 5 * step_bound 1)
propose_and_run-few_example =
    propose_and_run-few plain evaluator failing pool settings (λ w. w.1) failing-Counts false 1 task
      ([], 0)
