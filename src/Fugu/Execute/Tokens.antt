-- ===== src/Fugu/Execute/Tokens.antt =====
-- The accounting of a run against the log of the calls that the services have answered.
use minirouter.Prelude.{
  ℕ, ◌+◌, ◌≡◌, refl, Bool, Bool-cases, inl, inr, Option, List, arith, Text, text_eq, length,
  if◌then◌else◌, [], ◌∷◌,
}
use minirouter.Prelude.Unicode.{Unicode}
use minirouter.Py.{Value}
use minirouter.Types.{Task}
use minirouter.Fugu.Execute.State.{Tokens, WorkflowRun, Loop}
use minirouter.Fugu.Execute.Loop.{Services, Settings, returns, propose_and_run}
use minirouter.Fugu.Execute.Meter.{
  Logs, Cost, weigh, IsAdditive, IsView, calls-IsView, prompts-IsView, completions-IsView,
  models-IsView,
}
use minirouter.Fugu.Execute.Metered.{propose_and_run-metered}

abbrev pub sum_prompt : Tokens → ℕ
sum_prompt ts = weigh (λ n p c. p) ts

abbrev pub sum_completion : Tokens → ℕ
sum_completion ts = weigh (λ n p c. c) ts

abbrev prompt_of : Text → Cost
prompt_of model n p c = if text_eq n model then p else 0

abbrev completion_of : Text → Cost
completion_of model n p c = if text_eq n model then c else 0

-- the tokens of the entries of one model
abbrev pub prompts_of : Text → Tokens → ℕ
prompts_of model ts = weigh (prompt_of model) ts

abbrev pub completions_of : Text → Tokens → ℕ
completions_of model ts = weigh (completion_of model) ts

prompt_of-IsAdditive : (model : Text) → IsAdditive (prompt_of model)
prompt_of-IsAdditive model n p c p' c' = elim (Bool-cases (text_eq n model)) [
  | inl e ↦ rw e refl
  | inr e ↦ rw e refl
]

completion_of-IsAdditive : (model : Text) → IsAdditive (completion_of model)
completion_of-IsAdditive model n p c p' c' = elim (Bool-cases (text_eq n model)) [
  | inl e ↦ rw e refl
  | inr e ↦ rw e refl
]

length-weigh : (ts : Tokens) → weigh (λ n p c. 1) ts ≡ length ts
length-weigh [] = refl
length-weigh (t ∷ ts) = omega (arith, length-weigh ts)

-- Between two logs of the world, a run's counters are what the log has grown by: the calls, the
-- tokens, and the tokens of every single model. Its totals are the sums over its models.
pub record IsMetered (before after : Tokens) (run : WorkflowRun) : Type 0 where
  pub calls : length after ≡ length before + run.n_llm_calls
  pub prompts : sum_prompt after ≡ sum_prompt before + run.prompt_tokens
  pub completions : sum_completion after ≡ sum_completion before + run.completion_tokens
  pub prompts_each :
      (model : Text)
      → prompts_of model after ≡ prompts_of model before + prompts_of model run.model_tokens
  pub completions_each :
      (model : Text)
      → completions_of model after
        ≡ completions_of model before + completions_of model run.model_tokens
  pub prompts_sum : run.prompt_tokens ≡ sum_prompt run.model_tokens
  pub completions_sum : run.completion_tokens ≡ sum_completion run.model_tokens

module _ {W : Type 0} (u : Unicode) (literal_eval : Text → Option Value) (services : Services W)
    (pool_models : List Text) (g : Settings) (log : W → Tokens) (logs : Logs services log) where
  -- Where the world logs every call that is answered, the Conductor's under its key, a run of a
  -- proposal that is returned, accepted or rejected by the gate, counts exactly the calls that have
  -- been answered while it ran, those of its sub-runs included, and their tokens: in total, and
  -- under each model, the Conductor's own. The totals are the sums over the models.
  pub propose_and_run-IsMetered :
      (sample : Bool) (max_depth : ℕ) (task : Task) (w : W) {run : WorkflowRun} {w' : W}
      → propose_and_run u literal_eval services pool_models g sample max_depth task w
        ≡ (returns run, w')
      → IsMetered (log w) (log w') run
  propose_and_run-IsMetered sample max_depth task w {run} {w'} h =
      let calls : weigh (λ n p c. 1) (log w') ≡ weigh (λ n p c. 1) (log w) + run.n_llm_calls =
        grown _ _ _ (calls-IsView u literal_eval services pool_models g) in
      let prompts : sum_prompt (log w') ≡ sum_prompt (log w) + run.prompt_tokens =
        grown _ _ _ (prompts-IsView u literal_eval services pool_models g) in
      let completions : sum_completion (log w') ≡ sum_completion (log w) + run.completion_tokens =
        grown _ _ _ (completions-IsView u literal_eval services pool_models g) in
      record {
        calls = omega (arith, calls, length-weigh (log w), length-weigh (log w'));
        prompts = prompts;
        completions = completions;
        prompts_each = λ model. by_model (prompt_of model) (prompt_of-IsAdditive model);
        completions_each = λ model. by_model (completion_of model) (completion_of-IsAdditive model);
        prompts_sum = omega (arith, prompts, by_model (λ n p c. p) (λ n p c p' c'. refl));
        completions_sum = omega (arith, completions, by_model (λ n p c. c) (λ n p c p' c'. refl));
      }
    where
      grown :
          (cost : Cost) (of_loop : Loop → ℕ) (of_run : WorkflowRun → ℕ)
          → IsView u literal_eval services pool_models g cost of_loop of_run
          → weigh cost (log w') ≡ weigh cost (log w) + of_run run
      grown cost of_loop of_run v =
          propose_and_run-metered u literal_eval services pool_models g log logs cost of_loop of_run
            v sample max_depth task w h

      by_model :
          (cost : Cost)
          → IsAdditive cost
          → weigh cost (log w') ≡ weigh cost (log w) + weigh cost run.model_tokens
      by_model cost add =
          grown cost (λ l. weigh cost l.model_tokens) (λ r. weigh cost r.model_tokens)
            (models-IsView u literal_eval services pool_models g cost add)
