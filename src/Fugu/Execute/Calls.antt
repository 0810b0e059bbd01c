-- ===== src/Fugu/Execute/Calls.antt =====
-- How many calls of a model a run makes, whether it returns or raises.
use native.Mathlib.Nat.{mul-le-mul_left}
use minirouter.Prelude.{
  ℕ, zero, suc, ◌+◌, ◌*◌, ◌≤◌, ◌≡◌, refl, Bool, true, false, Option, none, some, List, [], ◌∷◌,
  arith, Text, length, get_elem?, not, ◌==◌, Bool-cases, inl, inr,
}
use minirouter.Prelude.Unicode.{Unicode}
use minirouter.Py.{Value}
use minirouter.Types.{Task}
use minirouter.Roles.Prompts.{Message}
use minirouter.Session.{Kwargs, ChatResult}
use minirouter.Fugu.Gate.{
  WorkflowStep, Workflow, Checked, ok, reject, raise, parse_workflow, max_steps_default,
}
use minirouter.Fugu.Gate.Sound.{parse_workflow-IsWorkflow}
use minirouter.Fugu.Execute.State.{WorkflowRun, conductor_key, Loop, start_loop, count_call}
use minirouter.Fugu.Execute.Messages.{context_block, subtask_as_task}
use minirouter.Fugu.Execute.Loop.{
  Proposal, Services, Settings, Outcome, returns, call_failed, no_model, gate_raised, worker_call,
  answered, named, worker_step, after_sub, gated, proposed, self_step, Recursion, self_or_first,
  run_step, and_then, run_steps, made, run_workflow, with_proposal, top_gated, top_proposed,
  propose_and_run,
}

-- The most calls of one step, with so many levels of recursion left: a proposal, and either a
-- worker's call or the five steps of a sub-run.
abbrev pub step_bound : ℕ → ℕ
step_bound zero = 1
step_bound (suc levels) = 1 + 5 * step_bound levels

step_bound-pos : (levels : ℕ) → 1 ≤ step_bound levels
step_bound-pos zero = omega arith
step_bound-pos (suc levels) = omega arith

-- The world counts the calls, whether they answer or raise.
pub record Counts {W : Type 0} (services : Services W) (calls : W → ℕ) : Type 0 where
  pub chats :
      (name : Text) (messages : List Message) (kwargs : Kwargs) (w : W)
      → calls (services.chat name messages kwargs w).1 ≡ calls w + 1
  pub proposes :
      (task : Task) (names : List Text) (sample : Bool) (w : W)
      → calls (services.propose task names sample w).1 ≡ calls w + 1

module _ {W : Type 0} (u : Unicode) (literal_eval : Text → Option Value) (services : Services W)
    (pool_models : List Text) (g : Settings) (calls : W → ℕ) (counts : Counts services calls) where
  answered-few :
      (i : ℕ) (st : WorkflowStep) (name : Text) (l : Loop) (k : ℕ) (r : Option ChatResult × W)
      → calls r.1 ≤ k
      → calls (answered u literal_eval services pool_models g i st name l r).1 ≤ k
  answered-few i st name l k (none, w) h = h
  answered-few i st name l k (some res, w) h = h

  worker_step-few :
      (i : ℕ) (st : WorkflowStep) (task : Task) (context : Text) (model : ℕ) (l : Loop) (w : W)
      → calls (worker_step u literal_eval services pool_models g i st task context model l w).1
        ≤ calls w + 1
  unfolding worker_step worker_call
  worker_step-few i st task context model l w = go (get_elem? pool_models model)
    where
      go :
          (name : Option Text)
          → calls (named u literal_eval services pool_models g i st task context name l w).1
            ≤ calls w + 1
      go none = omega arith
      go (some name) =
          answered-few i st name l (calls w + 1)
            (worker_call u literal_eval services pool_models g name task st.subtask context w)
            (omega (arith, counts.chats name _ _ w))

  after_sub-few :
      (i : ℕ) (st : WorkflowStep) (l : Loop) (k : ℕ) (r : Outcome WorkflowRun × W)
      → calls r.1 ≤ k
      → calls (after_sub u literal_eval services pool_models g i st l r).1 ≤ k
  after_sub-few i st l k (returns sub, w) h = h
  after_sub-few i st l k (call_failed, w) h = h
  after_sub-few i st l k (no_model, w) h = h
  after_sub-few i st l k (gate_raised, w) h = h

  -- A run of at most five steps makes at most `b` calls.
  abbrev RunSpends : ℕ → (Workflow → Task → W → Outcome WorkflowRun × W) → Type 0
  RunSpends b recurse =
      (wf : Workflow) (task : Task) (w : W)
      → length wf ≤ 5
      → calls (recurse wf task w).1 ≤ calls w + b

  module _ (i : ℕ) (st : WorkflowStep) (task : Task) (context : Text) where
    module _ (b : ℕ) (recurse : Workflow → Task → W → Outcome WorkflowRun × W) (pos : 1 ≤ b)
        (spends : RunSpends b recurse) where
      gated-few :
          (sub_task : Task) (c : Checked Workflow) (l : Loop) (w : W)
          → ((wf : Workflow) → c ≡ ok wf → length wf ≤ 5)
          → calls
              (gated u literal_eval services pool_models g recurse i st task sub_task context c l
                w).1
            ≤ calls w + b
      gated-few sub_task (ok wf) l w small =
          after_sub-few i st l (calls w + b) (recurse wf sub_task w)
            (spends wf sub_task w (small wf refl))
      gated-few sub_task reject l w small = omega (arith, worker_step-few i st task context 0 l w)
      gated-few sub_task raise l w small = omega arith

      proposed-few :
          (sub_task : Task) (l : Loop) (r : Option Proposal × W)
          → calls
              (proposed u literal_eval services pool_models g recurse i st task sub_task context l
                r).1
            ≤ calls r.1 + b
      proposed-few sub_task l (none, w) = omega arith
      proposed-few sub_task l (some prop, w) =
          gated-few sub_task
            (parse_workflow u literal_eval prop.text (length pool_models) max_steps_default true)
            (count_call conductor_key prop.prompt_tokens prop.completion_tokens l) w
            (λ wf e.
              (parse_workflow-IsWorkflow u literal_eval prop.text (length pool_models)
                max_steps_default true e).bounded)

  -- One step may make `b` calls: one without recursion, or a proposal and the sub-run behind it.
  abbrev StepSpends : ℕ → Recursion u literal_eval services pool_models g → Type 0
  StepSpends b none = 1 ≤ b
  StepSpends b (some recurse) = (c : ℕ) × (1 ≤ c) × (1 + c ≤ b) × RunSpends c recurse

  self_or_first-few :
      (b : ℕ) (recursion : Recursion u literal_eval services pool_models g) (i : ℕ)
      (st : WorkflowStep) (task : Task) (context : Text) (l : Loop) (w : W)
      → StepSpends b recursion
      → calls
          (self_or_first u literal_eval services pool_models g recursion i st task context l w).1
        ≤ calls w + b
  unfolding self_step
  self_or_first-few b none i st task context l w s =
      omega (arith, worker_step-few i st task context 0 l w)
  self_or_first-few b (some recurse) i st task context l w (c, pos, fits, spends) =
      let sub_task = subtask_as_task task st.subtask context in
      omega (
        arith,
        counts.proposes sub_task pool_models false w,
        proposed-few i st task context c recurse pos spends sub_task l
            (services.propose sub_task pool_models false w),
      )

  StepSpends-pos :
      (b : ℕ) (recursion : Recursion u literal_eval services pool_models g)
      → StepSpends b recursion
      → 1 ≤ b
  StepSpends-pos b none s = s
  StepSpends-pos b (some recurse) (c, pos, fits, spends) = omega arith

  run_step-few :
      (b : ℕ) (recursion : Recursion u literal_eval services pool_models g) (i : ℕ)
      (st : WorkflowStep) (task : Task) (l : Loop) (w : W)
      → StepSpends b recursion
      → calls (run_step u literal_eval services pool_models g recursion i st task l w).1
        ≤ calls w + b
  unfolding run_step
  run_step-few b recursion i st task l w s =
      let context = context_block st.access l.outputs in
      elim (Bool-cases (st.model_id == length pool_models)) [
        | inl e ↦ rw e (self_or_first-few b recursion i st task context l w s)
        | inr e ↦ rw e (
            omega (
              arith,
              StepSpends-pos b recursion s,
              worker_step-few i st task context st.model_id l w,
            ))
      ]

  and_then-few :
      (k b : ℕ) (r : Outcome Loop × W) (next : Loop → W → Outcome Loop × W)
      → calls r.1 ≤ k
      → ((l : Loop) (w : W) → calls (next l w).1 ≤ calls w + b)
      → calls (and_then u literal_eval services pool_models g r next).1 ≤ k + b
  and_then-few k b (returns l, w) next h few = omega (arith, few l w)
  and_then-few k b (call_failed, w) next h few = omega arith
  and_then-few k b (no_model, w) next h few = omega arith
  and_then-few k b (gate_raised, w) next h few = omega arith

  run_steps-few :
      (b : ℕ) (recursion : Recursion u literal_eval services pool_models g) (task : Task) (i : ℕ)
      (sts : Workflow) (l : Loop) (w : W)
      → StepSpends b recursion
      → calls (run_steps u literal_eval services pool_models g recursion task i sts l w).1
        ≤ calls w + b * length sts
  unfolding run_steps
  run_steps-few b recursion task i [] l w s = omega arith
  run_steps-few b recursion task i (st ∷ sts) l w s = omega (
    arith,
    and_then-few (calls w + b) (b * length sts)
        (run_step u literal_eval services pool_models g recursion i st task l w)
        (λ l' w'. run_steps u literal_eval services pool_models g recursion task (i + 1) sts l' w')
        (run_step-few b recursion i st task l w s)
        (λ l' w'. run_steps-few b recursion task (i + 1) sts l' w' s),
  )

  made-few :
      (wf : Workflow) (k : ℕ) (r : Outcome Loop × W)
      → calls r.1 ≤ k
      → calls (made u literal_eval services pool_models g wf r).1 ≤ k
  made-few wf k (returns l, w) h = h
  made-few wf k (call_failed, w) h = h
  made-few wf k (no_model, w) h = h
  made-few wf k (gate_raised, w) h = h

  -- A run of a workflow with some levels of recursion left makes at most `step_bound` of these
  -- levels per step, however its self-calls unfold and however it ends.
  pub run_workflow-few :
      (has_conductor : Bool) (levels : ℕ) (wf : Workflow) (task : Task) (w : W)
      → calls (run_workflow u literal_eval services pool_models g has_conductor levels wf task w).1
        ≤ calls w + step_bound levels * length wf
  unfolding run_workflow
  run_workflow-few has_conductor zero wf task w =
      made-few wf _ _ (run_steps-few 1 none task 0 wf start_loop w (omega arith))
  run_workflow-few false (suc levels) wf task w = made-few wf _ _ (
      run_steps-few (step_bound (suc levels)) none task 0 wf start_loop w
        (step_bound-pos (suc levels)))
  run_workflow-few true (suc levels) wf task w = made-few wf _ _ (
      run_steps-few (step_bound (suc levels))
        (some (run_workflow u literal_eval services pool_models g true levels)) task 0 wf start_loop
        w
        (
          5 * step_bound levels,
          omega (arith, step_bound-pos levels),
          omega arith,
          λ wf' task' w' small. omega (
            arith,
            run_workflow-few true levels wf' task' w',
            mul-le-mul_left (step_bound levels) small,
          ),
        ))

  with_proposal-few :
      (prop : Proposal) (k : ℕ) (r : Outcome WorkflowRun × W)
      → calls r.1 ≤ k
      → calls (with_proposal u literal_eval services pool_models g prop r).1 ≤ k
  with_proposal-few prop k (returns run, w) h = h
  with_proposal-few prop k (call_failed, w) h = h
  with_proposal-few prop k (no_model, w) h = h
  with_proposal-few prop k (gate_raised, w) h = h

  top_gated-few :
      (max_depth : ℕ) (task : Task) (prop : Proposal) (c : Checked Workflow) (w : W)
      → ((wf : Workflow) → c ≡ ok wf → length wf ≤ 5)
      → calls (top_gated u literal_eval services pool_models g max_depth task prop c w).1
        ≤ calls w + 5 * step_bound max_depth
  top_gated-few max_depth task prop (ok wf) w small =
      with_proposal-few prop _
        (run_workflow u literal_eval services pool_models g true max_depth wf task w)
        (omega (
          arith,
          run_workflow-few true max_depth wf task w,
          mul-le-mul_left (step_bound max_depth) (small wf refl),
        ))
  top_gated-few max_depth task prop reject w small = omega arith
  top_gated-few max_depth task prop raise w small = omega arith

  top_proposed-few :
      (max_depth : ℕ) (task : Task) (r : Option Proposal × W)
      → calls (top_proposed u literal_eval services pool_models g max_depth task r).1
        ≤ calls r.1 + 5 * step_bound max_depth
  top_proposed-few max_depth task (none, w) = omega arith
  top_proposed-few max_depth task (some prop, w) =
      top_gated-few max_depth task prop
        (parse_workflow u literal_eval prop.text (length pool_models) max_steps_default
          (not (max_depth == 0)))
        w
        (λ wf e.
          (parse_workflow-IsWorkflow u literal_eval prop.text (length pool_models) max_steps_default
            (not (max_depth == 0)) e).bounded)

  -- Where the world counts the calls of the Conductor and of the workers, answered or not, one run
  -- makes at most 1 + 5 * step_bound of them, whatever they answer and whether the run returns or
  -- raises: 6 without recursion, 31 with one level of it.
  pub propose_and_run-few :
      (sample : Bool) (max_depth : ℕ) (task : Task) (w : W)
      → calls (propose_and_run u literal_eval services pool_models g sample max_depth task w).1
        ≤ calls w + (1 + 5 * step_bound max_depth)
  unfolding propose_and_run
  propose_and_run-few sample max_depth task w = omega (
    arith,
    counts.proposes task pool_models sample w,
    top_proposed-few max_depth task (services.propose task pool_models sample w),
  )
