-- ===== src/Fugu/Grpo/Cap.antt =====
-- What a collected group is, and what the spend cap guarantees.
use mathlib.Core.Path.{subst}
use mathlib.Core.List.{map-append}
use minirouter.Prelude.{
  ℕ, zero, suc, ◌+◌, ◌≤◌, ◌≡◌, refl, sym, ap, ◌∙◌, true, false, ◌&&◌, List, [], ◌∷◌, ◌++◌, map,
  arith, inl, inr, ◌⊎◌, length, length-append, Bool-cases,
}
use minirouter.Types.{Task}
use minirouter.Fugu.Execute.State.{WorkflowRun}
use minirouter.Fugu.Execute.Loop.{Outcome, returns, call_failed, no_model, gate_raised}
use minirouter.Fugu.Reward.{Grader, Reward, training_reward}
use minirouter.Fugu.Grpo.{
  Money, CostMeter, GroupResult, Collected, collected, cost_cap_exceeded, rollout_failed, add_run,
  metered, collect_rest, collect_group,
}

-- The calls that a list of runs made.
abbrev pub sum_calls : List WorkflowRun → ℕ
sum_calls [] = 0
sum_calls (r ∷ rs) = r.n_llm_calls + sum_calls rs

sum_calls-append : (xs ys : List WorkflowRun) → sum_calls (xs ++ ys) ≡ sum_calls xs + sum_calls ys
sum_calls-append [] ys = omega arith
sum_calls-append (x ∷ xs) ys = let e = sum_calls-append xs ys in omega arith

-- The meter counts the runs, on top of what it showed at first.
pub record IsMetered {M : Type 0} (first : CostMeter M) (runs : List WorkflowRun)
    (meter : CostMeter M) : Type 0 where
  pub runs_counted : meter.runs ≡ first.runs + length runs
  pub calls_counted : meter.calls ≡ first.calls + sum_calls runs

module _ {M : Type 0} (money : Money M) where
  add_run-IsMetered :
      (first : CostMeter M) (runs : List WorkflowRun) (run : WorkflowRun) (meter : CostMeter M)
      → IsMetered first runs meter
      → IsMetered first (runs ++ run ∷ []) (add_run money run meter)
  unfolding add_run
  add_run-IsMetered first runs run meter h = record {
    runs_counted = omega (arith, h.runs_counted, length-append runs (run ∷ []));
    calls_counted = omega (arith, h.calls_counted, sum_calls-append runs (run ∷ []));
  }

  -- No positive cap is exceeded.
  abbrev pub IsUnderCap : CostMeter M → Type 0
  IsUnderCap meter =
      (money.exceeds meter.cap_usd money.nothing_spent && money.exceeds meter.spend meter.cap_usd)
      ≡ false

  add_run-IsUnderCap :
      (run : WorkflowRun) (meter : CostMeter M)
      → (add_run money run meter).aborted ≡ false
      → IsUnderCap (add_run money run meter)
  unfolding add_run
  add_run-IsUnderCap run meter h = ground arith

  module _ {W : Type 0} (grader : Grader) (rollout : W → Outcome WorkflowRun × W)
      (task : Task) where
    abbrev reward_of : WorkflowRun → Reward
    reward_of run = training_reward grader run task

    -- A group of `size` rollouts: each with its reward, and all metered.
    pub record IsGroup (first : CostMeter M) (size : ℕ) (res : GroupResult) (meter : CostMeter M)
        : Type 0 where
      pub whole : length res.runs ≡ size
      pub rewarded :
          res.rewards ≡ map (λ (run : WorkflowRun). training_reward grader run task) res.runs
      pub metered_all : IsMetered first res.runs meter
      pub same_task : res.task ≡ task
      pub under_cap : (size ≡ 0) ⊎ IsUnderCap meter

    -- The cap was crossed by the last of at most `size` rollouts.
    pub record IsCapped (first : CostMeter M) (size : ℕ) (meter : CostMeter M) : Type 0 where
      pub crossed : meter.aborted ≡ true
      pub some_run : first.runs + 1 ≤ meter.runs
      pub few_runs : meter.runs ≤ first.runs + size

    abbrev Collects : CostMeter M → ℕ → Collected M → Type 0
    Collects first size (collected res meter) = IsGroup first size res meter
    Collects first size (cost_cap_exceeded meter) = IsCapped first size meter
    Collects first size rollout_failed = Unit

    module _ (first : CostMeter M) (size : ℕ) where
      metered-Collects :
          (left : ℕ) (runs : List WorkflowRun) (rewards : List Reward) (meter : CostMeter M)
          (rest : List WorkflowRun → List Reward → CostMeter M → W → Collected M × W)
          (r : Outcome WorkflowRun × W)
          → length runs + suc left ≡ size
          → IsMetered first runs meter
          → ((run : WorkflowRun) (w : W)
              → IsUnderCap (add_run money run meter)
              → Collects first size
                  (rest
                    (runs ++ run ∷ [])
                    (rewards ++ training_reward grader run task ∷ [])
                    (add_run money run meter)
                    w).0)
          → Collects first size (metered money grader rollout task runs rewards meter rest r).0
      metered-Collects left runs rewards meter rest (returns run, w) e h next =
          elim (Bool-cases (add_run money run meter).aborted) [
            | inl q ↦
                let c = (add_run-IsMetered first runs run meter h).runs_counted in
                let l = length-append runs (run ∷ []) in
                simp q (record { crossed = q; some_run = omega arith; few_runs = omega arith })
            | inr q ↦ simp q (next run w (add_run-IsUnderCap run meter q))
          ]
      metered-Collects left runs rewards meter rest (call_failed, w) e h next = tt
      metered-Collects left runs rewards meter rest (no_model, w) e h next = tt
      metered-Collects left runs rewards meter rest (gate_raised, w) e h next = tt

      collect_rest-Collects :
          (left : ℕ) (runs : List WorkflowRun) (rewards : List Reward) (meter : CostMeter M) (w : W)
          → length runs + left ≡ size
          → rewards ≡ map reward_of runs
          → IsMetered first runs meter
          → ((length runs ≡ 0) ⊎ IsUnderCap meter)
          → Collects first size (collect_rest money grader rollout task left runs rewards meter w).0
      unfolding collect_rest
      collect_rest-Collects zero runs rewards meter w e r h c = record {
        whole = omega (arith, e);
        rewarded = r;
        metered_all = h;
        same_task = refl;
        under_cap = elim c [ inl z ↦ inl (omega (arith, e, z)) | inr q ↦ inr q ];
      }
      collect_rest-Collects (suc left) runs rewards meter w e r h c =
          metered-Collects left runs rewards meter (collect_rest money grader rollout task left)
            (rollout w) e h
            (λ run w' under.
              collect_rest-Collects left (runs ++ run ∷ []) (rewards ++ reward_of run ∷ [])
                (add_run money run meter) w' (omega (arith, e, length-append runs (run ∷ [])))
                (ap (λ rs. rs ++ reward_of run ∷ []) r ∙ sym (map-append reward_of runs (run ∷ [])))
                (add_run-IsMetered first runs run meter h) (inr under))

    group_Collects :
        (size : ℕ) (first : CostMeter M) (w : W)
        → Collects first size (collect_group money grader rollout task size first w).0
    unfolding collect_group
    group_Collects size first w =
        collect_rest-Collects first size size [] [] first w (omega arith) refl
          (record { runs_counted = omega arith; calls_counted = omega arith }) (inl refl)

    -- A collected group has as many runs as asked for, each with its training reward, in order; the
    -- meter has counted each of them and its calls. Unless it is empty, the spend at its end exceeds no
    -- positive cap.
    pub collect_group-IsGroup :
        (size : ℕ) (first : CostMeter M) (w : W) {res : GroupResult} {meter : CostMeter M}
        → (collect_group money grader rollout task size first w).0 ≡ collected res meter
        → IsGroup first size res meter
    collect_group-IsGroup size first w h =
        subst (Collects first size) h (group_Collects size first w)

    -- Where the cap stops the group, the meter is aborted, at least one rollout was metered, and at
    -- most as many as the group's size.
    pub collect_group-IsCapped :
        (size : ℕ) (first : CostMeter M) (w : W) {meter : CostMeter M}
        → (collect_group money grader rollout task size first w).0 ≡ cost_cap_exceeded meter
        → IsCapped first size meter
    collect_group-IsCapped size first w h =
        subst (Collects first size) h (group_Collects size first w)
