-- ===== src/Fugu/Execute/Rounds.antt =====
-- What one round of the loop does to an invariant, by the ways in which a round moves the loop's
-- variables.
use minirouter.Prelude.{
  ℕ, ◌≡◌, refl, true, false, Option, none, some, List, [], ◌∷◌, ◌++◌, inl, inr, Text, length,
  get_elem?, ◌==◌, Bool-cases,
}
use minirouter.Prelude.Unicode.{Unicode}
use minirouter.Py.{Value}
use minirouter.Types.{Task}
use minirouter.Session.{ChatResult}
use minirouter.Fugu.Gate.{
  Checked, ok, reject, raise, WorkflowStep, Workflow, max_steps_default, parse_workflow,
}
use minirouter.Fugu.Gate.Sound.{IsWorkflow, parse_workflow-IsWorkflow}
use minirouter.Fugu.Execute.State.{
  WorkflowRun, conductor_key, Loop, Produced, finish_step, count_call, count_run,
}
use minirouter.Fugu.Execute.Messages.{context_block, subtask_as_task}
use minirouter.Fugu.Execute.Loop.{
  Proposal, Services, Settings, Outcome, returns, call_failed, no_model, gate_raised, worker_call,
  answered, named, worker_step, after_sub, gated, proposed, self_step, Recursion, self_or_first,
  run_step,
}

-- What a returned value satisfies.
abbrev pub Holds {ℓ κ} : {A : Type ℓ} → (A → Type κ) → Outcome A → Type κ
Holds P (returns a) = P a
Holds P _ = Unit

-- How the loop's variables may move in a round: a worker's answer, a rejected proposal and then a
-- worker's answer, or a proposal and its sub-run; the last two only in a run that `Can` recurse.
pub record StepRules (Can : Type 0) (Inv : Workflow → Loop → Type 0) (RunOk : WorkflowRun → Type 0)
    : Type 0 where
  pub by_worker :
      (done : Workflow) (st : WorkflowStep) (p : Produced) (l : Loop)
      → Inv done l
      → Inv (done ++ st ∷ []) (finish_step (length done) st p (count_call p.mname p.pt p.ct l))
  pub by_fallback :
      (done : Workflow) (st : WorkflowStep) (p : Produced) (a b : ℕ) (l : Loop)
      → Can
      → Inv done l
      → Inv (done ++ st ∷ []) (
          finish_step
            (length done)
            st
            p
            (count_call p.mname p.pt p.ct (count_call conductor_key a b l)))
  pub by_sub :
      (done : Workflow) (st : WorkflowStep) (p : Produced) (a b : ℕ) (sub : WorkflowRun) (l : Loop)
      → Can
      → Inv done l
      → RunOk sub
      → Inv
          (done ++ st ∷ [])
          (finish_step (length done) st p (count_run sub (count_call conductor_key a b l)))

module _ {W : Type 0} (u : Unicode) (literal_eval : Text → Option Value) (services : Services W)
    (pool_models : List Text) (g : Settings) (Can : Type 0) (Inv : Workflow → Loop → Type 0)
    (RunOk : WorkflowRun → Type 0) (rules : StepRules Can Inv RunOk) where
  answered-Holds :
      (i : ℕ) (st : WorkflowStep) (name : Text) (l : Loop) (Q : Loop → Type 0)
      (r : Option ChatResult × W)
      → ((p : Produced) → p.mname ≡ name → Q (finish_step i st p (count_call p.mname p.pt p.ct l)))
      → Holds Q (answered u literal_eval services pool_models g i st name l r).0
  answered-Holds i st name l Q (none, w) h = tt
  answered-Holds i st name l Q (some res, w) h = h _ refl

  named-Holds :
      (i : ℕ) (st : WorkflowStep) (task : Task) (context : Text) (name : Option Text) (l : Loop)
      (w : W) (Q : Loop → Type 0)
      → ((p : Produced) → Q (finish_step i st p (count_call p.mname p.pt p.ct l)))
      → Holds Q (named u literal_eval services pool_models g i st task context name l w).0
  named-Holds i st task context none l w Q h = tt
  named-Holds i st task context (some name) l w Q h =
      answered-Holds i st name l Q
        (worker_call u literal_eval services pool_models g name task st.subtask context w)
        (λ p e. h p)

  worker_step-Holds :
      (i : ℕ) (st : WorkflowStep) (task : Task) (context : Text) (model : ℕ) (l : Loop) (w : W)
      (Q : Loop → Type 0)
      → ((p : Produced) → Q (finish_step i st p (count_call p.mname p.pt p.ct l)))
      → Holds Q (worker_step u literal_eval services pool_models g i st task context model l w).0
  unfolding worker_step
  worker_step-Holds i st task context model l w Q h =
      named-Holds i st task context (get_elem? pool_models model) l w Q h

  -- What is known of the run of a sub-workflow.
  abbrev pub RecursionHolds : Recursion u literal_eval services pool_models g → Type 0
  RecursionHolds none = Unit
  RecursionHolds (some recurse) =
      Can
      × ((wf : Workflow) (task : Task) (w : W)
          → IsWorkflow (length pool_models) max_steps_default true wf
          → Holds RunOk (recurse wf task w).0)

  module _ (done : Workflow) (st : WorkflowStep) (task : Task) (context : Text) where
    after_sub-Holds :
        (a b : ℕ) (l : Loop) (r : Outcome WorkflowRun × W)
        → Can
        → Inv done l
        → Holds RunOk r.0
        → Holds
            (Inv (done ++ st ∷ []))
            (after_sub u literal_eval services pool_models g
              (length done)
              st
              (count_call conductor_key a b l)
              r).0
    after_sub-Holds a b l (returns sub, w) can h k = rules.by_sub done st _ a b sub l can h k
    after_sub-Holds a b l (call_failed, w) can h k = tt
    after_sub-Holds a b l (no_model, w) can h k = tt
    after_sub-Holds a b l (gate_raised, w) can h k = tt

    module _ (can : Can) (recurse : Workflow → Task → W → Outcome WorkflowRun × W)
        (recurse_holds : (wf : Workflow) (sub_task : Task) (w : W)
          → IsWorkflow (length pool_models) max_steps_default true wf
          → Holds RunOk (recurse wf sub_task w).0) where
      gated-Holds :
          (sub_task : Task) (c : Checked Workflow) (a b : ℕ) (l : Loop) (w : W)
          → ((wf : Workflow)
              → c ≡ ok wf
              → IsWorkflow (length pool_models) max_steps_default true wf)
          → Inv done l
          → Holds
              (Inv (done ++ st ∷ []))
              (gated u literal_eval services pool_models g recurse
                (length done)
                st
                task
                sub_task
                context
                c
                (count_call conductor_key a b l)
                w).0
      gated-Holds sub_task (ok wf) a b l w valid h =
          after_sub-Holds a b l (recurse wf sub_task w) can h
            (recurse_holds wf sub_task w (valid wf refl))
      gated-Holds sub_task reject a b l w valid h =
          worker_step-Holds (length done) st task context 0 (count_call conductor_key a b l) w
            (Inv (done ++ st ∷ [])) (λ p. rules.by_fallback done st p a b l can h)
      gated-Holds sub_task raise a b l w valid h = tt

      proposed-Holds :
          (sub_task : Task) (l : Loop) (r : Option Proposal × W)
          → Inv done l
          → Holds
              (Inv (done ++ st ∷ []))
              (proposed u literal_eval services pool_models g recurse
                (length done)
                st
                task
                sub_task
                context
                l
                r).0
      proposed-Holds sub_task l (none, w) h = tt
      proposed-Holds sub_task l (some prop, w) h =
          gated-Holds sub_task
            (parse_workflow u literal_eval prop.text (length pool_models) max_steps_default true)
            prop.prompt_tokens prop.completion_tokens l w
            (λ wf e.
              parse_workflow-IsWorkflow u literal_eval prop.text (length pool_models)
                max_steps_default true e)
            h

      self_step-Holds :
          (l : Loop) (w : W)
          → Inv done l
          → Holds
              (Inv (done ++ st ∷ []))
              (self_step u literal_eval services pool_models g recurse
                (length done)
                st
                task
                context
                l
                w).0
      unfolding self_step
      self_step-Holds l w h =
          proposed-Holds (subtask_as_task task st.subtask context) l
            (services.propose (subtask_as_task task st.subtask context) pool_models false w) h

    self_or_first-Holds :
        (recursion : Recursion u literal_eval services pool_models g) (l : Loop) (w : W)
        → RecursionHolds recursion
        → Inv done l
        → Holds
            (Inv (done ++ st ∷ []))
            (self_or_first u literal_eval services pool_models g recursion
              (length done)
              st
              task
              context
              l
              w).0
    self_or_first-Holds none l w k h =
        worker_step-Holds (length done) st task context 0 l w (Inv (done ++ st ∷ []))
          (λ p. rules.by_worker done st p l h)
    self_or_first-Holds (some recurse) l w k h = self_step-Holds k.0 recurse k.1 l w h

  pub run_step-Holds :
      (recursion : Recursion u literal_eval services pool_models g) (done : Workflow)
      (st : WorkflowStep) (task : Task) (l : Loop) (w : W)
      → RecursionHolds recursion
      → Inv done l
      → Holds
          (Inv (done ++ st ∷ []))
          (run_step u literal_eval services pool_models g recursion (length done) st task l w).0
  unfolding run_step
  run_step-Holds recursion done st task l w k h =
      elim (Bool-cases (st.model_id == length pool_models)) [
        | inl e ↦
            rw e (
              self_or_first-Holds done st task (context_block st.access l.outputs) recursion l w k
                h)
        | inr e ↦ rw e (
            worker_step-Holds (length done) st task (context_block st.access l.outputs) st.model_id
              l w (Inv (done ++ st ∷ [])) (λ p. rules.by_worker done st p l h))
      ]
