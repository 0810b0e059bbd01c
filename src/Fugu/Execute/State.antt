-- ===== src/Fugu/Execute/State.antt =====
-- src/trinity/fugu/workflow.py: the records of a run, and its accounting.
use minirouter.Prelude.{
  ℕ, ◌+◌, Bool, Option, List, [], ◌∷◌, ◌++◌, Text, codes, text_eq, if◌then◌else◌,
}
use minirouter.Fugu.Gate.{WorkflowStep, Workflow}

pub record StepResult : Type 0 where
  pub step : ℕ
  pub model_id : ℕ
  pub model_name : Text
  pub subtask : Text
  pub output : Text
  pub raw : Text
  pub prompt_tokens : ℕ
  pub completion_tokens : ℕ

-- a `dict` from model names to prompt and completion tokens, in insertion order
abbrev pub Tokens : Type 0
Tokens = List (Text × ℕ × ℕ)

-- `steps_out` is the field `steps`.
pub record WorkflowRun : Type 0 where
  pub workflow : Option Workflow
  pub parsed_ok : Bool
  pub steps_out : List StepResult
  pub final_answer : Text
  pub raw_proposal : Text
  pub n_llm_calls : ℕ
  pub prompt_tokens : ℕ
  pub completion_tokens : ℕ
  pub model_tokens : Tokens

abbrev pub conductor_key : Text
conductor_key = codes "<conductor>"

-- `_accum`
unfoldable pub accum : Tokens → Text → ℕ → ℕ → Tokens
accum [] name pt ct = (name, pt, ct) ∷ []
accum ((n, p, c) ∷ acc) name pt ct =
    let rest = accum acc name pt ct in
    if text_eq n name then (n, p + pt, c + ct) ∷ acc else (n, p, c) ∷ rest

-- `_merge_tokens`
unfoldable pub merge_tokens : Tokens → Tokens → Tokens
unfolding accum
merge_tokens dst [] = dst
merge_tokens dst ((name, p, c) ∷ src) = merge_tokens (accum dst name p c) src

-- the local variables of the loop of `run_workflow`
pub record Loop : Type 0 where
  pub steps_out : List StepResult
  pub outputs : List Text
  pub n_calls : ℕ
  pub ptoks : ℕ
  pub ctoks : ℕ
  pub model_tokens : Tokens

abbrev pub start_loop : Loop
start_loop = record {
  steps_out = [];
  outputs = [];
  n_calls = 0;
  ptoks = 0;
  ctoks = 0;
  model_tokens = [];
}

-- what a step produced: the model's name, the output, the raw text and the tokens
pub record Produced : Type 0 where
  pub mname : Text
  pub out : Text
  pub raw : Text
  pub pt : ℕ
  pub ct : ℕ

-- the record and the output that end a round
unfoldable pub finish_step : ℕ → WorkflowStep → Produced → Loop → Loop
finish_step i st p l = record l {
  steps_out =
      l.steps_out
      ++ record {
        step = i;
        model_id = st.model_id;
        model_name = p.mname;
        subtask = st.subtask;
        output = p.out;
        raw = p.raw;
        prompt_tokens = p.pt;
        completion_tokens = p.ct;
      }
        ∷ [];
  outputs = l.outputs ++ p.out ∷ [];
}

-- the counters behind a worker's call
unfoldable pub count_call : Text → ℕ → ℕ → Loop → Loop
unfolding accum
count_call name pt ct l = record l {
  n_calls = l.n_calls + 1;
  ptoks = l.ptoks + pt;
  ctoks = l.ctoks + ct;
  model_tokens = accum l.model_tokens name pt ct;
}

-- the counters behind a sub-run
unfoldable pub count_run : WorkflowRun → Loop → Loop
unfolding merge_tokens
count_run sub l = record l {
  n_calls = l.n_calls + sub.n_llm_calls;
  ptoks = l.ptoks + sub.prompt_tokens;
  ctoks = l.ctoks + sub.completion_tokens;
  model_tokens = merge_tokens l.model_tokens sub.model_tokens;
}
