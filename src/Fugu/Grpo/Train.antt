-- ===== src/Fugu/Grpo/Train.antt =====
-- src/trinity/fugu/grpo.py, `train`: the loop over the iterations, each of which collects a group
-- for every question of its batch and updates the policy. The gradient step is the backend's
-- `update`, a parameter on the world, and so is the arithmetic of the reported rates. The callbacks
-- `on_iter` and `on_cost`, which only report, are left out.
pub mod Batches
mod Tests
use minirouter.Prelude.{
  ℕ, zero, suc, ◌+◌, ◌%◌, Bool, true, false, Option, none, some, List, [], ◌∷◌, ◌++◌, map, reverse,
  length, get_or, if◌then◌else◌,
}
use minirouter.Types.{Task}
use minirouter.Fugu.Execute.State.{WorkflowRun}
use minirouter.Fugu.Execute.Loop.{Outcome}
use minirouter.Fugu.Reward.{Grader, Reward}
use minirouter.Fugu.Grpo.{
  Money, CostMeter, GroupResult, Collected, collected, cost_cap_exceeded, rollout_failed,
  collect_group,
}

-- the floats of the report: a ratio of counts, a reward, and the mean of some numbers
pub record Rates (F : Type 0) : Type 0 where
  pub nil_rate : F
  pub ratio : ℕ → ℕ → F
  pub of_reward : Reward → F
  pub mean : F → List F → F

pub record Config : Type 0 where
  pub group_size : ℕ
  pub iterations : ℕ
  pub questions_per_iter : ℕ

-- a record of the history; `completed` has the iteration, the rates, the spend and the statistics
pub data Entry (M F S : Type 0) : Type 0 where
  completed : ℕ → F → F → F → M → S → Entry M F S
  aborted_cost : ℕ → Entry M F S

pub record Summary (M F S : Type 0) : Type 0 where
  pub meter : CostMeter M
  pub history : List (Entry M F S)
  pub final_accuracy : F

-- An exception of a rollout goes through `train`.
pub data Trained (M F S : Type 0) : Type 0 where
  trained : Summary M F S → Trained M F S
  failed : Trained M F S

-- the groups of one batch
pub data Groups (M : Type 0) : Type 0 where
  all_collected : List GroupResult → CostMeter M → Groups M
  over_cap : CostMeter M → Groups M
  broke : Groups M

abbrev pub or_one : ℕ → ℕ
or_one zero = 1
or_one (suc n) = suc n

module _ {F : Type 0} (rates : Rates F) where
  abbrev pub safe_mean : List F → F
  safe_mean [] = rates.nil_rate
  safe_mean (x ∷ xs) = rates.mean x xs

  abbrev pub all_rewards : List GroupResult → List F
  all_rewards [] = []
  all_rewards (g ∷ gs) = map rates.of_reward g.rewards ++ all_rewards gs

  -- the newest accuracy, of a history with the newest record in front
  unfoldable pub newest_accuracy : {M S : Type 0} → List (Entry M F S) → F
  newest_accuracy [] = rates.nil_rate
  newest_accuracy (completed it reward accuracy parsed spend stats ∷ rest) = accuracy
  newest_accuracy (aborted_cost it ∷ rest) = newest_accuracy rest

  abbrev pub finish : {M S : Type 0} → List (Entry M F S) → CostMeter M → Trained M F S
  finish history meter = trained record {
    meter = meter;
    history = history;
    final_accuracy = newest_accuracy (reverse history);
  }

  abbrev pub entry_of : {M S : Type 0} → ℕ → List GroupResult → CostMeter M → S → Entry M F S
  entry_of it groups meter stats =
      completed it (safe_mean (all_rewards groups))
        (safe_mean
          (map (λ (g : GroupResult). rates.ratio g.n_correct (or_one (length g.runs))) groups))
        (safe_mean
          (map (λ (g : GroupResult). rates.ratio g.n_parsed (or_one (length g.runs))) groups))
        meter.spend stats

-- `[tasks[(cursor + j) % n] for j in range(questions_per_iter)]`, from some j on
unfoldable pub batch_from : Task → List Task → ℕ → ℕ → ℕ → List Task
batch_from first tasks cursor zero j = []
batch_from first tasks cursor (suc k) j =
    get_or tasks ((cursor + j) % length tasks) first ∷ batch_from first tasks cursor k (j + 1)

module _ {M W : Type 0} (money : Money M) (grader : Grader)
    (rollout : Task → W → Outcome WorkflowRun × W) where
  abbrev pub then_groups :
      List GroupResult
      → (List GroupResult → CostMeter M → W → Groups M × W)
      → Collected M × W
      → Groups M × W
  then_groups groups rest (collected group meter, w) = rest (groups ++ group ∷ []) meter w
  then_groups groups rest (cost_cap_exceeded meter, w) = (over_cap meter, w)
  then_groups groups rest (rollout_failed, w) = (broke, w)

  -- the loop over the questions of a batch
  unfoldable pub collect_groups : ℕ → List Task → List GroupResult → CostMeter M → W → Groups M × W
  unfolding collect_group
  collect_groups size [] groups meter w = (all_collected groups meter, w)
  collect_groups size (task ∷ tasks) groups meter w =
      then_groups groups (λ groups' meter' w'. collect_groups size tasks groups' meter' w')
        (collect_group money grader (rollout task) task size meter w)

  module _ {F S : Type 0} (rates : Rates F) (update : List GroupResult → W → S × W) where
    -- What an iteration does behind its groups; `rest` is the next one.
    abbrev pub then_update :
        ℕ
        → List (Entry M F S)
        → (List (Entry M F S) → CostMeter M → W → Trained M F S × W)
        → Groups M × W
        → Trained M F S × W
    then_update it history rest (all_collected groups meter, w) =
        let (stats, w') = update groups w in
        let history' = history ++ entry_of rates it groups meter stats ∷ [] in
        if meter.aborted then (finish rates history' meter, w') else rest history' meter w'
    then_update it history rest (over_cap meter, w) =
        (finish rates (history ++ aborted_cost it ∷ []) meter, w)
    then_update it history rest (broke, w) = (failed, w)

    -- the loop, with so many iterations to go
    unfoldable pub train_rest :
        Config
        → Task
        → List Task
        → ℕ
        → ℕ
        → ℕ
        → List (Entry M F S)
        → CostMeter M
        → W
        → Trained M F S × W
    unfolding collect_groups batch_from newest_accuracy
    train_rest cfg first tasks zero it cursor history meter w = (finish rates history meter, w)
    train_rest cfg first tasks (suc left) it cursor history meter w =
        then_update it history
          (λ history' meter' w'.
            train_rest cfg first tasks left (it + 1)
              ((cursor + cfg.questions_per_iter) % length tasks) history' meter' w')
          (collect_groups cfg.group_size (batch_from first tasks cursor cfg.questions_per_iter 0) []
            meter w)

    -- `train`, from a meter that shows the cap and no spend. Without tasks the source leaves
    -- `final_accuracy` out, which is the nil rate here.
    unfoldable pub train : Config → List Task → CostMeter M → W → Trained M F S × W
    unfolding train_rest
    train cfg [] meter w = (finish rates [] meter, w)
    train cfg (task ∷ tasks) meter w =
        train_rest cfg task (task ∷ tasks) cfg.iterations 0 0 [] meter w
