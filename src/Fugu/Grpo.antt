-- ===== src/Fugu/Grpo.antt =====
-- src/trinity/fugu/cost.py, `CostMeter`, and src/trinity/fugu/grpo.py, `collect_group`: the rollouts
-- of one question under a spend cap. An amount of money stays abstract: a type with addition and
-- comparison, and the price of a run's tokens (`run_cost`) as a function of them.
pub mod Cap
pub mod Train
pub mod Tests
use minirouter.Prelude.{
  ℕ, zero, suc, ◌+◌, Bool, true, false, not, ◌&&◌, ◌||◌, Option, none, some, List, [], ◌∷◌, ◌++◌,
  map, length, Text, if◌then◌else◌,
}
use minirouter.Types.{Task}
use minirouter.Fugu.Execute.State.{Tokens, WorkflowRun}
use minirouter.Fugu.Execute.Loop.{Outcome, returns, call_failed, no_model, gate_raised}
use minirouter.Fugu.Reward.{Grader, Reward, training_reward, is_correct}

pub record Money (M : Type 0) : Type 0 where
  pub nothing_spent : M
  pub plus : M → M → M
  -- m > n
  pub exceeds : M → M → Bool
  -- `run_cost(model_tokens, prices)[0]`
  pub run_cost : Tokens → M

pub record CostMeter (M : Type 0) : Type 0 where
  pub cap_usd : M
  pub spend : M
  pub calls : ℕ
  pub prompt_tokens : ℕ
  pub completion_tokens : ℕ
  pub runs : ℕ
  pub aborted : Bool

-- What `collect_group` returns, without the advantages; `n_parsed` and `n_correct` are counts.
pub record GroupResult : Type 0 where
  pub task : Task
  pub runs : List WorkflowRun
  pub rewards : List Reward
  pub n_parsed : ℕ
  pub n_correct : ℕ

unfoldable pub count_if : (WorkflowRun → Bool) → List WorkflowRun → ℕ
count_if test [] = 0
count_if test (r ∷ rs) = let n = count_if test rs in if test r then n + 1 else n

-- A group is collected, the cap is crossed, or an exception of a rollout goes through.
pub data Collected (M : Type 0) : Type 0 where
  collected : GroupResult → CostMeter M → Collected M
  cost_cap_exceeded : CostMeter M → Collected M
  rollout_failed : Collected M

module _ {M : Type 0} (money : Money M) where
  -- `add_run`
  unfoldable pub add_run : WorkflowRun → CostMeter M → CostMeter M
  add_run run meter =
      let spend = money.plus meter.spend (money.run_cost run.model_tokens) in
      record meter {
        spend = spend;
        calls = meter.calls + run.n_llm_calls;
        prompt_tokens = meter.prompt_tokens + run.prompt_tokens;
        completion_tokens = meter.completion_tokens + run.completion_tokens;
        runs = meter.runs + 1;
        aborted =
            (money.exceeds meter.cap_usd money.nothing_spent && money.exceeds spend meter.cap_usd)
            || meter.aborted;
      }

  -- The rollout is `propose_and_run` with the options of the configuration.
  module _ {W : Type 0} (grader : Grader) (rollout : W → Outcome WorkflowRun × W)
      (task : Task) where
    abbrev pub finished : List WorkflowRun → List Reward → CostMeter M → Collected M
    finished runs rewards meter =
        collected
          (record {
            task = task;
            runs = runs;
            rewards = rewards;
            n_parsed = count_if (λ r. r.parsed_ok) runs;
            n_correct = count_if (λ r. is_correct grader r task) runs;
          })
          meter

    -- The rest of a round behind the rollout; `rest` is what the loop does from there on.
    abbrev pub metered :
        List WorkflowRun
        → List Reward
        → CostMeter M
        → (List WorkflowRun → List Reward → CostMeter M → W → Collected M × W)
        → Outcome WorkflowRun × W
        → Collected M × W
    metered runs rewards meter rest (returns run, w) =
        if (add_run run meter).aborted
        then (cost_cap_exceeded (add_run run meter), w)
        else rest (runs ++ run ∷ []) (rewards ++ training_reward grader run task ∷ [])
            (add_run run meter) w
    metered runs rewards meter rest (call_failed, w) = (rollout_failed, w)
    metered runs rewards meter rest (no_model, w) = (rollout_failed, w)
    metered runs rewards meter rest (gate_raised, w) = (rollout_failed, w)

    -- the loop, with so many rollouts to go
    unfoldable pub collect_rest :
        ℕ → List WorkflowRun → List Reward → CostMeter M → W → Collected M × W
    unfolding add_run training_reward count_if
    collect_rest zero runs rewards meter w = (finished runs rewards meter, w)
    collect_rest (suc left) runs rewards meter w =
        metered runs rewards meter
          (λ runs' rewards' meter' w'. collect_rest left runs' rewards' meter' w') (rollout w)

    unfoldable pub collect_group : ℕ → CostMeter M → W → Collected M × W
    unfolding collect_rest
    collect_group group_size meter w = collect_rest group_size [] [] meter w
