-- ===== src/Fugu/Execute/Metered.antt =====
-- A run's counter moves by what its calls add to the log of the world.
use mathlib.Core.Path.{subst}
use minirouter.Prelude.{
  ℕ, zero, suc, ◌+◌, ◌≡◌, refl, ap, Bool, true, false, Option, none, some, List, [], ◌∷◌, arith,
  Text, length, get_elem?, not, ◌==◌, Bool-cases, inl, inr,
}
use minirouter.Prelude.Unicode.{Unicode}
use minirouter.Py.{Value}
use minirouter.Types.{Task}
use minirouter.Session.{ChatResult}
use minirouter.Fugu.Gate.{
  WorkflowStep, Workflow, Checked, ok, reject, raise, parse_workflow, max_steps_default,
}
use minirouter.Fugu.Execute.State.{Tokens, WorkflowRun, conductor_key, Loop, start_loop, count_call}
use minirouter.Fugu.Execute.Messages.{context_block, subtask_as_task}
use minirouter.Fugu.Execute.Loop.{
  Proposal, Services, Settings, Outcome, returns, call_failed, no_model, gate_raised, worker_call,
  answered, named, worker_step, after_sub, gated, proposed, self_step, Recursion, self_or_first,
  run_step, and_then, run_steps, made, run_workflow, with_proposal, top_gated, top_proposed,
  propose_and_run,
}
use minirouter.Fugu.Execute.Meter.{Logs, Cost, weigh, IsView}

module _ {W : Type 0} (u : Unicode) (literal_eval : Text → Option Value) (services : Services W)
    (pool_models : List Text) (g : Settings) (log : W → Tokens) (logs : Logs services log)
    (cost : Cost) (of_loop : Loop → ℕ) (of_run : WorkflowRun → ℕ)
    (v : IsView u literal_eval services pool_models g cost of_loop of_run) where
  abbrev meter : W → ℕ
  meter w = weigh cost (log w)

  -- From the counter `n` and the meter `k` on, both have moved by the same.
  abbrev Moved : {A : Type 0} → (A → ℕ) → ℕ → ℕ → Outcome A × W → Type 0
  Moved of n k (returns a, w) = meter w + n ≡ k + of a
  Moved of n k (call_failed, w) = Unit
  Moved of n k (no_model, w) = Unit
  Moved of n k (gate_raised, w) = Unit

  Moved-before :
      {A : Type 0} (of : A → ℕ) (n k n' k' : ℕ) (r : Outcome A × W)
      → k' + n ≡ k + n'
      → Moved of n' k' r
      → Moved of n k r
  Moved-before of n k n' k' (returns a, w) e h = omega arith
  Moved-before of n k n' k' (call_failed, w) e h = tt
  Moved-before of n k n' k' (no_model, w) e h = tt
  Moved-before of n k n' k' (gate_raised, w) e h = tt

  -- the entry of a call of the model
  abbrev Logged : Text → ℕ → ℕ → W → W → Type 0
  Logged name pt ct w w' = log w' ≡ (name, pt, ct) ∷ log w

  answered-Moved :
      (i : ℕ) (st : WorkflowStep) (name : Text) (l : Loop) (w : W) (r : Option ChatResult × W)
      → ((res : ChatResult) (w' : W)
          → r ≡ (some res, w')
          → Logged name res.prompt_tokens res.completion_tokens w w')
      → Moved of_loop
          (of_loop l)
          (meter w)
          (answered u literal_eval services pool_models g i st name l r)
  answered-Moved i st name l w (none, w') h = tt
  answered-Moved i st name l w (some res, w') h =
      rw (h res w' refl, v.step i st _ _, v.call name res.prompt_tokens res.completion_tokens l)
        (omega arith)

  worker_step-Moved :
      (i : ℕ) (st : WorkflowStep) (task : Task) (context : Text) (model : ℕ) (l : Loop) (w : W)
      → Moved of_loop
          (of_loop l)
          (meter w)
          (worker_step u literal_eval services pool_models g i st task context model l w)
  unfolding worker_step worker_call
  worker_step-Moved i st task context model l w = go (get_elem? pool_models model)
    where
      go :
          (name : Option Text)
          → Moved of_loop
              (of_loop l)
              (meter w)
              (named u literal_eval services pool_models g i st task context name l w)
      go none = tt
      go (some name) =
          answered-Moved i st name l w
            (worker_call u literal_eval services pool_models g name task st.subtask context w)
            (λ x w' e. logs.chats name _ _ w e)

  -- what a run one level down does
  abbrev RunMoves : (Workflow → Task → W → Outcome WorkflowRun × W) → Type 0
  RunMoves recurse =
      (wf : Workflow) (task : Task) (w : W) → Moved of_run 0 (meter w) (recurse wf task w)

  abbrev RecursionMoves : Recursion u literal_eval services pool_models g → Type 0
  RecursionMoves none = Unit
  RecursionMoves (some recurse) = RunMoves recurse

  after_sub-Moved :
      (i : ℕ) (st : WorkflowStep) (l : Loop) (k : ℕ) (r : Outcome WorkflowRun × W)
      → Moved of_run 0 k r
      → Moved of_loop (of_loop l) k (after_sub u literal_eval services pool_models g i st l r)
  after_sub-Moved i st l k (returns sub, w) h =
      rw (v.step i st _ _, v.sub_run sub l) (omega (arith, h))
  after_sub-Moved i st l k (call_failed, w) h = tt
  after_sub-Moved i st l k (no_model, w) h = tt
  after_sub-Moved i st l k (gate_raised, w) h = tt

  module _ (i : ℕ) (st : WorkflowStep) (task : Task) (context : Text) where
    module _ (recurse : Workflow → Task → W → Outcome WorkflowRun × W)
        (moves : RunMoves recurse) where
      gated-Moved :
          (sub_task : Task) (c : Checked Workflow) (l : Loop) (w : W)
          → Moved of_loop
              (of_loop l)
              (meter w)
              (gated u literal_eval services pool_models g recurse i st task sub_task context c l w)
      gated-Moved sub_task (ok wf) l w =
          after_sub-Moved i st l (meter w) (recurse wf sub_task w) (moves wf sub_task w)
      gated-Moved sub_task reject l w = worker_step-Moved i st task context 0 l w
      gated-Moved sub_task raise l w = tt

      proposed-Moved :
          (sub_task : Task) (l : Loop) (w : W) (r : Option Proposal × W)
          → ((prop : Proposal) (w' : W)
              → r ≡ (some prop, w')
              → Logged conductor_key prop.prompt_tokens prop.completion_tokens w w')
          → Moved of_loop (of_loop l) (meter w) (
              proposed u literal_eval services pool_models g recurse i st task sub_task context l r)
      proposed-Moved sub_task l w (none, w') h = tt
      proposed-Moved sub_task l w (some prop, w') h =
          let l' = count_call conductor_key prop.prompt_tokens prop.completion_tokens l in
          Moved-before of_loop (of_loop l) (meter w) (of_loop l') (meter w') _
            (rw (h prop w' refl, v.call conductor_key prop.prompt_tokens prop.completion_tokens l)
              (omega arith))
            (gated-Moved sub_task
              (parse_workflow u literal_eval prop.text (length pool_models) max_steps_default true)
              l' w')

    self_or_first-Moved :
        (recursion : Recursion u literal_eval services pool_models g) (l : Loop) (w : W)
        → RecursionMoves recursion
        → Moved of_loop
            (of_loop l)
            (meter w)
            (self_or_first u literal_eval services pool_models g recursion i st task context l w)
    unfolding self_step
    self_or_first-Moved none l w k = worker_step-Moved i st task context 0 l w
    self_or_first-Moved (some recurse) l w k =
        proposed-Moved recurse k (subtask_as_task task st.subtask context) l w
          (services.propose (subtask_as_task task st.subtask context) pool_models false w)
          (λ x w' e. logs.proposes (subtask_as_task task st.subtask context) pool_models false w e)

  run_step-Moved :
      (recursion : Recursion u literal_eval services pool_models g) (i : ℕ) (st : WorkflowStep)
      (task : Task) (l : Loop) (w : W)
      → RecursionMoves recursion
      → Moved of_loop
          (of_loop l)
          (meter w)
          (run_step u literal_eval services pool_models g recursion i st task l w)
  unfolding run_step
  run_step-Moved recursion i st task l w k = elim (Bool-cases (st.model_id == length pool_models)) [
    | inl e ↦
        rw e (self_or_first-Moved i st task (context_block st.access l.outputs) recursion l w k)
    | inr e ↦ rw e (worker_step-Moved i st task (context_block st.access l.outputs) st.model_id l w)
  ]

  and_then-Moved :
      (n k : ℕ) (r : Outcome Loop × W) (next : Loop → W → Outcome Loop × W)
      → Moved of_loop n k r
      → ((l : Loop) (w : W) → Moved of_loop (of_loop l) (meter w) (next l w))
      → Moved of_loop n k (and_then u literal_eval services pool_models g r next)
  and_then-Moved n k (returns l, w) next h moves =
      Moved-before of_loop n k (of_loop l) (meter w) (next l w) h (moves l w)
  and_then-Moved n k (call_failed, w) next h moves = tt
  and_then-Moved n k (no_model, w) next h moves = tt
  and_then-Moved n k (gate_raised, w) next h moves = tt

  run_steps-Moved :
      (recursion : Recursion u literal_eval services pool_models g) (task : Task) (i : ℕ)
      (sts : Workflow) (l : Loop) (w : W)
      → RecursionMoves recursion
      → Moved of_loop
          (of_loop l)
          (meter w)
          (run_steps u literal_eval services pool_models g recursion task i sts l w)
  unfolding run_steps
  run_steps-Moved recursion task i [] l w k = refl
  run_steps-Moved recursion task i (st ∷ sts) l w k =
      and_then-Moved (of_loop l) (meter w)
        (run_step u literal_eval services pool_models g recursion i st task l w) _
        (run_step-Moved recursion i st task l w k)
        (λ l' w'. run_steps-Moved recursion task (i + 1) sts l' w' k)

  made-Moved :
      (wf : Workflow) (k : ℕ) (r : Outcome Loop × W)
      → Moved of_loop (of_loop start_loop) k r
      → Moved of_run 0 k (made u literal_eval services pool_models g wf r)
  made-Moved wf k (returns l, w) h = rw (v.ended wf l) (omega (arith, h, v.start))
  made-Moved wf k (call_failed, w) h = tt
  made-Moved wf k (no_model, w) h = tt
  made-Moved wf k (gate_raised, w) h = tt

  run_workflow-Moved :
      (has_conductor : Bool) (levels : ℕ)
      → RunMoves (run_workflow u literal_eval services pool_models g has_conductor levels)
  unfolding run_workflow
  run_workflow-Moved has_conductor zero wf task w =
      made-Moved wf (meter w) _ (run_steps-Moved none task 0 wf start_loop w tt)
  run_workflow-Moved false (suc levels) wf task w =
      made-Moved wf (meter w) _ (run_steps-Moved none task 0 wf start_loop w tt)
  run_workflow-Moved true (suc levels) wf task w = made-Moved wf (meter w) _ (
      run_steps-Moved (some (run_workflow u literal_eval services pool_models g true levels)) task 0
        wf start_loop w (run_workflow-Moved true levels))

  with_proposal-Moved :
      (prop : Proposal) (k k' : ℕ) (r : Outcome WorkflowRun × W)
      → k' ≡ cost conductor_key prop.prompt_tokens prop.completion_tokens + k
      → Moved of_run 0 k' r
      → Moved of_run 0 k (with_proposal u literal_eval services pool_models g prop r)
  with_proposal-Moved prop k k' (returns run, w) e h = rw (v.added prop run) (omega (arith, h))
  with_proposal-Moved prop k k' (call_failed, w) e h = tt
  with_proposal-Moved prop k k' (no_model, w) e h = tt
  with_proposal-Moved prop k k' (gate_raised, w) e h = tt

  top_gated-Moved :
      (max_depth : ℕ) (task : Task) (prop : Proposal) (c : Checked Workflow) (w w' : W)
      → Logged conductor_key prop.prompt_tokens prop.completion_tokens w w'
      → Moved of_run 0
          (meter w)
          (top_gated u literal_eval services pool_models g max_depth task prop c w')
  top_gated-Moved max_depth task prop (ok wf) w w' h =
      with_proposal-Moved prop (meter w) (meter w') _ (ap (weigh cost) h)
        (run_workflow-Moved true max_depth wf task w')
  top_gated-Moved max_depth task prop reject w w' h = rw (h, v.rejected prop) (omega arith)
  top_gated-Moved max_depth task prop raise w w' h = tt

  top_proposed-Moved :
      (max_depth : ℕ) (task : Task) (w : W) (r : Option Proposal × W)
      → ((prop : Proposal) (w' : W)
          → r ≡ (some prop, w')
          → Logged conductor_key prop.prompt_tokens prop.completion_tokens w w')
      → Moved of_run 0
          (meter w)
          (top_proposed u literal_eval services pool_models g max_depth task r)
  top_proposed-Moved max_depth task w (none, w') h = tt
  top_proposed-Moved max_depth task w (some prop, w') h =
      top_gated-Moved max_depth task prop
        (parse_workflow u literal_eval prop.text (length pool_models) max_steps_default
          (not (max_depth == 0)))
        w w' (h prop w' refl)

  -- A returned run's counter is what its calls have added to the log.
  pub propose_and_run-metered :
      (sample : Bool) (max_depth : ℕ) (task : Task) (w : W) {run : WorkflowRun} {w' : W}
      → propose_and_run u literal_eval services pool_models g sample max_depth task w
        ≡ (returns run, w')
      → weigh cost (log w') ≡ weigh cost (log w) + of_run run
  unfolding propose_and_run
  propose_and_run-metered sample max_depth task w {run} {w'} h =
      let moved : Moved of_run 0 (meter w) (returns run, w') = subst (Moved of_run 0 (meter w)) h (
        top_proposed-Moved max_depth task w (services.propose task pool_models sample w)
          (λ x w' e. logs.proposes task pool_models sample w e)) in
      omega (arith, moved)
