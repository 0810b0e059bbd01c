-- ===== src/Fugu/Grpo/Tests.antt =====
-- Groups of rollouts that cost 5 each.
use minirouter.Prelude.{ℕ, ◌+◌, ◌≡◌, refl, Bool, true, false, none, [], ◌∷◌, codes, ltb}
use minirouter.Py.{nothing}
use minirouter.Types.{Task}
use minirouter.Fugu.Execute.State.{WorkflowRun}
use minirouter.Fugu.Execute.Loop.{Outcome, returns}
use minirouter.Fugu.Reward.{Grader, training_reward, is_correct, parse_fail}
use minirouter.Fugu.Grpo.{
  Money, CostMeter, GroupResult, collected, cost_cap_exceeded, collect_group,
}
use minirouter.Fugu.Grpo.Cap.{IsGroup, IsCapped, collect_group-IsGroup, collect_group-IsCapped}

abbrev pub units : Money ℕ
units = record {
  nothing_spent = 0;
  plus = λ m n. m + n;
  exceeds = λ m n. ltb n m;
  run_cost = λ tokens. 5;
}

abbrev pub never : Grader
never = record { has_answer = λ benchmark text. false; solves = λ benchmark text answer. false }

abbrev pub rejected : WorkflowRun
rejected = record {
  workflow = none;
  parsed_ok = false;
  steps_out = [];
  final_answer = [];
  raw_proposal = codes "no idea";
  n_llm_calls = 1;
  prompt_tokens = 2;
  completion_tokens = 3;
  model_tokens = [];
}

abbrev rollout : ℕ → Outcome WorkflowRun × ℕ
rollout w = (returns rejected, w + 1)

abbrev pub task : Task
task = record {
  task_id = codes "t";
  benchmark = codes "math500";
  prompt = codes "6 * 7?";
  answer = nothing;
  meta = nothing;
}

abbrev pub meter : ℕ → CostMeter ℕ
meter cap = record {
  cap_usd = cap;
  spend = 0;
  calls = 0;
  prompt_tokens = 0;
  completion_tokens = 0;
  runs = 0;
  aborted = false;
}

abbrev group : GroupResult
group = record {
  task = task;
  runs = rejected ∷ rejected ∷ [];
  rewards = parse_fail ∷ parse_fail ∷ [];
  n_parsed = 0;
  n_correct = 0;
}

abbrev spent : ℕ → Bool → CostMeter ℕ
spent cap aborted = record {
  cap_usd = cap;
  spend = 10;
  calls = 2;
  prompt_tokens = 4;
  completion_tokens = 6;
  runs = 2;
  aborted = aborted;
}

within :
    (collect_group units never rollout task 2 (meter 12) 0).0 ≡ collected group (spent 12 false)
unfolding collect_group training_reward is_correct
within = refl

beyond : (collect_group units never rollout task 4 (meter 8) 0).0 ≡ cost_cap_exceeded (spent 8 true)
unfolding collect_group training_reward is_correct
beyond = refl

collect_group-IsGroup_example : IsGroup units never rollout task (meter 12) 2 group (spent 12 false)
collect_group-IsGroup_example = collect_group-IsGroup units never rollout task 2 (meter 12) 0 within

collect_group-IsCapped_example : IsCapped units never rollout task (meter 8) 4 (spent 8 true)
collect_group-IsCapped_example =
    collect_group-IsCapped units never rollout task 4 (meter 8) 0 beyond
