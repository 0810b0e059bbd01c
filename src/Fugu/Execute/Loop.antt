-- ===== src/Fugu/Execute/Loop.antt =====
-- src/trinity/fugu/workflow.py: the execution of a workflow over the pool. The pool's `chat` and the
-- Conductor's `propose` are services over a state `W` of the world outside.
use minirouter.Prelude.{
  ℕ, zero, suc, ◌+◌, Bool, true, false, not, Option, none, some, List, [], ◌∷◌, Text, codes, length,
  get_elem?, ◌==◌, if◌then◌else◌,
}
use minirouter.Prelude.Unicode.{Unicode}
use minirouter.Py.{Value}
use minirouter.Types.{Task, worker}
use minirouter.Roles.Postprocess.{postprocess, default_max_chars}
use minirouter.Session.{ChatResult, filter_supported}
use minirouter.Fugu.Gate.{
  Checked, ok, reject, raise, WorkflowStep, Workflow, max_steps_default, parse_workflow,
}
use minirouter.Fugu.Execute.State.{
  WorkflowRun, conductor_key, accum, Loop, start_loop, finish_step, count_call, count_run,
}
use minirouter.Fugu.Execute.Messages.{context_block, worker_messages, subtask_as_task}
pub use minirouter.Fugu.Execute.World.{
  Proposal, Services, Settings, Outcome, returns, call_failed, no_model, gate_raised,
}
use minirouter.Fugu.Execute.World.{worker_kwargs}

-- what `propose_and_run` adds to the run of its proposal
abbrev pub with_conductor : Proposal → WorkflowRun → WorkflowRun
with_conductor prop run = record run {
  raw_proposal = prop.text;
  n_llm_calls = run.n_llm_calls + 1;
  prompt_tokens = run.prompt_tokens + prop.prompt_tokens;
  completion_tokens = run.completion_tokens + prop.completion_tokens;
  model_tokens = accum run.model_tokens conductor_key prop.prompt_tokens prop.completion_tokens;
}

module _ {W : Type 0} (u : Unicode) (literal_eval : Text → Option Value) (services : Services W)
    (pool_models : List Text) (g : Settings) where
  -- `_worker_call`
  unfoldable pub worker_call : Text → Task → Text → Text → W → Option ChatResult × W
  unfolding worker_messages worker_kwargs
  worker_call name task subtask context w =
      services.chat name (worker_messages u task subtask context)
        (filter_supported services.chat_signature (worker_kwargs g)) w

  abbrev pub answered : ℕ → WorkflowStep → Text → Loop → Option ChatResult × W → Outcome Loop × W
  answered i st name l (none, w) = (call_failed, w)
  answered i st name l (some res, w) = (
    returns (
        finish_step i st
          (record {
            mname = name;
            out = postprocess (some res.text) worker default_max_chars;
            raw = res.text;
            pt = res.prompt_tokens;
            ct = res.completion_tokens;
          })
          (count_call name res.prompt_tokens res.completion_tokens l)),
    w,
  )

  abbrev pub named : ℕ → WorkflowStep → Task → Text → Option Text → Loop → W → Outcome Loop × W
  named i st task context none l w = (no_model, w)
  named i st task context (some name) l w =
      answered i st name l (worker_call name task st.subtask context w)

  -- a worker step on the model at an index of the pool
  unfoldable pub worker_step : ℕ → WorkflowStep → Task → Text → ℕ → Loop → W → Outcome Loop × W
  unfolding finish_step count_call
  worker_step i st task context model l w =
      named i st task context (get_elem? pool_models model) l w

  abbrev pub after_sub : ℕ → WorkflowStep → Loop → Outcome WorkflowRun × W → Outcome Loop × W
  after_sub i st l (returns sub, w) = (
    returns (
        finish_step i st
          (record {
            mname = codes "self";
            out = sub.final_answer;
            raw = sub.final_answer;
            pt = sub.prompt_tokens;
            ct = sub.completion_tokens;
          })
          (count_run sub l)),
    w,
  )
  after_sub i st l (call_failed, w) = (call_failed, w)
  after_sub i st l (no_model, w) = (no_model, w)
  after_sub i st l (gate_raised, w) = (gate_raised, w)

  -- The rest of a self-call behind the gate; `recurse` is the run of a sub-workflow one level down.
  abbrev pub gated :
      (Workflow → Task → W → Outcome WorkflowRun × W)
      → ℕ
      → WorkflowStep
      → Task
      → Task
      → Text
      → Checked Workflow
      → Loop
      → W
      → Outcome Loop × W
  gated recurse i st task sub_task context (ok sub_wf) l w =
      after_sub i st l (recurse sub_wf sub_task w)
  gated recurse i st task sub_task context reject l w = worker_step i st task context 0 l w
  gated recurse i st task sub_task context raise l w = (gate_raised, w)

  abbrev pub proposed :
      (Workflow → Task → W → Outcome WorkflowRun × W)
      → ℕ
      → WorkflowStep
      → Task
      → Task
      → Text
      → Loop
      → Option Proposal × W
      → Outcome Loop × W
  proposed recurse i st task sub_task context l (none, w) = (call_failed, w)
  proposed recurse i st task sub_task context l (some prop, w) =
      gated recurse i st task sub_task context
        (parse_workflow u literal_eval prop.text (length pool_models) max_steps_default true)
        (count_call conductor_key prop.prompt_tokens prop.completion_tokens l) w

  -- a self-call with recursion budget left
  unfoldable pub self_step :
      (Workflow → Task → W → Outcome WorkflowRun × W)
      → ℕ
      → WorkflowStep
      → Task
      → Text
      → Loop
      → W
      → Outcome Loop × W
  unfolding finish_step count_call count_run subtask_as_task
  self_step recurse i st task context l w =
      proposed recurse i st task (subtask_as_task task st.subtask context) context l
        (services.propose (subtask_as_task task st.subtask context) pool_models false w)

  abbrev pub Recursion : Type 0
  Recursion = Option (Workflow → Task → W → Outcome WorkflowRun × W)

  -- `can_recurse`: there is a conductor, and a level is left
  abbrev pub self_or_first :
      Recursion → ℕ → WorkflowStep → Task → Text → Loop → W → Outcome Loop × W
  self_or_first none i st task context l w = worker_step i st task context 0 l w
  self_or_first (some recurse) i st task context l w = self_step recurse i st task context l w

  -- one round of the loop
  unfoldable pub run_step : Recursion → ℕ → WorkflowStep → Task → Loop → W → Outcome Loop × W
  unfolding context_block
  run_step recursion i st task l w =
      if st.model_id == length pool_models
      then self_or_first recursion i st task (context_block st.access l.outputs) l w
      else worker_step i st task (context_block st.access l.outputs) st.model_id l w

  abbrev pub and_then : Outcome Loop × W → (Loop → W → Outcome Loop × W) → Outcome Loop × W
  and_then (returns l, w) k = k l w
  and_then (call_failed, w) k = (call_failed, w)
  and_then (no_model, w) k = (no_model, w)
  and_then (gate_raised, w) k = (gate_raised, w)

  unfoldable pub run_steps : Recursion → Task → ℕ → Workflow → Loop → W → Outcome Loop × W
  run_steps recursion task i [] l w = (returns l, w)
  run_steps recursion task i (st ∷ sts) l w =
      and_then (run_step recursion i st task l w)
        (λ l' w'. run_steps recursion task (i + 1) sts l' w')

  -- `outputs[-1] if outputs else ""`
  abbrev pub last_output : List Text → Text
  last_output [] = []
  last_output (x ∷ []) = x
  last_output (x ∷ y ∷ ys) = last_output (y ∷ ys)

  abbrev pub run_of : Workflow → Loop → WorkflowRun
  run_of workflow l = record {
    workflow = some workflow;
    parsed_ok = true;
    steps_out = l.steps_out;
    final_answer = last_output l.outputs;
    raw_proposal = [];
    n_llm_calls = l.n_calls;
    prompt_tokens = l.ptoks;
    completion_tokens = l.ctoks;
    model_tokens = l.model_tokens;
  }

  abbrev pub made : Workflow → Outcome Loop × W → Outcome WorkflowRun × W
  made workflow (returns l, w) = (returns (run_of workflow l), w)
  made workflow (call_failed, w) = (call_failed, w)
  made workflow (no_model, w) = (no_model, w)
  made workflow (gate_raised, w) = (gate_raised, w)

  -- `run_workflow`, with or without a conductor, with `max_depth - depth` levels of recursion left
  unfoldable pub run_workflow : Bool → ℕ → Workflow → Task → W → Outcome WorkflowRun × W
  run_workflow has_conductor zero workflow task w =
      made workflow (run_steps none task 0 workflow start_loop w)
  run_workflow has_conductor (suc levels) workflow task w = made workflow (
      run_steps (if has_conductor then some (run_workflow has_conductor levels) else none) task 0
        workflow start_loop w)

  -- `run_workflow` of `propose_and_run`, and what is added to its run
  abbrev pub with_proposal : Proposal → Outcome WorkflowRun × W → Outcome WorkflowRun × W
  with_proposal prop (returns run, w) = (returns (with_conductor prop run), w)
  with_proposal prop (call_failed, w) = (call_failed, w)
  with_proposal prop (no_model, w) = (no_model, w)
  with_proposal prop (gate_raised, w) = (gate_raised, w)

  -- the run of a proposal that the gate rejects
  abbrev pub rejected_run : Proposal → WorkflowRun
  rejected_run prop = record {
    workflow = none;
    parsed_ok = false;
    steps_out = [];
    final_answer = [];
    raw_proposal = prop.text;
    n_llm_calls = 1;
    prompt_tokens = prop.prompt_tokens;
    completion_tokens = prop.completion_tokens;
    model_tokens = (conductor_key, prop.prompt_tokens, prop.completion_tokens) ∷ [];
  }

  abbrev pub top_gated : ℕ → Task → Proposal → Checked Workflow → W → Outcome WorkflowRun × W
  top_gated max_depth task prop (ok wf) w =
      with_proposal prop (run_workflow true max_depth wf task w)
  top_gated max_depth task prop reject w = (returns (rejected_run prop), w)
  top_gated max_depth task prop raise w = (gate_raised, w)

  abbrev pub top_proposed : ℕ → Task → Option Proposal × W → Outcome WorkflowRun × W
  top_proposed max_depth task (none, w) = (call_failed, w)
  top_proposed max_depth task (some prop, w) =
      top_gated max_depth task prop
        (parse_workflow u literal_eval prop.text (length pool_models) max_steps_default
          (not (max_depth == 0)))
        w

  -- `propose_and_run`, which is given a conductor
  unfoldable pub propose_and_run : Bool → ℕ → Task → W → Outcome WorkflowRun × W
  propose_and_run sample max_depth task w =
      top_proposed max_depth task (services.propose task pool_models sample w)
