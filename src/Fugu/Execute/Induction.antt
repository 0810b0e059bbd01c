-- ===== src/Fugu/Execute/Induction.antt =====
-- The induction over the steps of a run, for every invariant of the loop.
use mathlib.Core.List.{append_assoc, append-nil}
use minirouter.Prelude.{
  ℕ, zero, suc, ◌+◌, ◌≡◌, refl, Bool, true, false, Option, none, some, List, [], ◌∷◌, ◌++◌, arith,
  Text, length, length-append,
}
use minirouter.Prelude.Unicode.{Unicode}
use minirouter.Py.{Value}
use minirouter.Types.{Task}
use minirouter.Fugu.Gate.{Workflow}
use minirouter.Fugu.Execute.State.{WorkflowRun, Loop, start_loop}
use minirouter.Fugu.Execute.Loop.{
  Services, Settings, Outcome, returns, call_failed, no_model, gate_raised, Recursion, run_step,
  and_then, run_steps, run_of, made, run_workflow,
}
use minirouter.Fugu.Execute.Rounds.{Holds, StepRules, RecursionHolds, run_step-Holds}

module _ {W : Type 0} (u : Unicode) (literal_eval : Text → Option Value) (services : Services W)
    (pool_models : List Text) (g : Settings) (Can : Type 0) (Inv : Workflow → Loop → Type 0)
    (RunOk : WorkflowRun → Type 0) (rules : StepRules Can Inv RunOk) where
  and_then-Holds :
      (P Q : Loop → Type 0) (r : Outcome Loop × W) (k : Loop → W → Outcome Loop × W)
      → Holds P r.0
      → ((l : Loop) (w : W) → P l → Holds Q (k l w).0)
      → Holds Q (and_then u literal_eval services pool_models g r k).0
  and_then-Holds P Q (returns l, w) k h next = next l w h
  and_then-Holds P Q (call_failed, w) k h next = tt
  and_then-Holds P Q (no_model, w) k h next = tt
  and_then-Holds P Q (gate_raised, w) k h next = tt

  run_steps-Holds :
      (recursion : Recursion u literal_eval services pool_models g) (task : Task) (done : Workflow)
      (i : ℕ) (sts : Workflow) (l : Loop) (w : W)
      → RecursionHolds u literal_eval services pool_models g Can Inv RunOk rules recursion
      → i ≡ length done
      → Inv done l
      → Holds
          (Inv (done ++ sts))
          (run_steps u literal_eval services pool_models g recursion task i sts l w).0
  unfolding run_steps
  run_steps-Holds recursion task done i [] l w k e h = rw (append-nil done) h
  run_steps-Holds recursion task done i (st ∷ sts) l w k e h =
      rw (← append_assoc done (st ∷ []) sts, e)
        (and_then-Holds (Inv (done ++ st ∷ [])) (Inv ((done ++ st ∷ []) ++ sts))
          (run_step u literal_eval services pool_models g recursion (length done) st task l w) _
          (run_step-Holds u literal_eval services pool_models g Can Inv RunOk rules recursion done
            st task l w k h)
          (λ l' w' h'.
            run_steps-Holds recursion task (done ++ st ∷ []) (length done + 1) sts l' w' k
              (omega (arith, length-append done (st ∷ []))) h'))

  made-Holds :
      (wf : Workflow) (P : Loop → Type 0) (Q : WorkflowRun → Type 0) (r : Outcome Loop × W)
      → Holds P r.0
      → ((l : Loop) → P l → Q (run_of u literal_eval services pool_models g wf l))
      → Holds Q (made u literal_eval services pool_models g wf r).0
  made-Holds wf P Q (returns l, w) h k = k l h
  made-Holds wf P Q (call_failed, w) h k = tt
  made-Holds wf P Q (no_model, w) h k = tt
  made-Holds wf P Q (gate_raised, w) h k = tt

  -- All steps, from the start: what the invariant says of the loop's end holds of the run.
  pub all_steps-Holds :
      (recursion : Recursion u literal_eval services pool_models g) (task : Task) (wf : Workflow)
      (w : W) (Q : WorkflowRun → Type 0)
      → RecursionHolds u literal_eval services pool_models g Can Inv RunOk rules recursion
      → Inv [] start_loop
      → ((l : Loop) → Inv wf l → Q (run_of u literal_eval services pool_models g wf l))
      → Holds Q
          (made u literal_eval services pool_models g wf
            (run_steps u literal_eval services pool_models g recursion task 0 wf start_loop w)).0
  all_steps-Holds recursion task wf w Q k h q =
      made-Holds wf (Inv wf) Q
        (run_steps u literal_eval services pool_models g recursion task 0 wf start_loop w)
        (run_steps-Holds recursion task [] 0 wf start_loop w k refl h) q

  -- Where sub-runs satisfy what the run has to, every run does.
  pub run_workflow-Holds :
      (has_conductor : Bool) (levels : ℕ) (wf : Workflow) (task : Task) (w : W)
      → Can
      → Inv [] start_loop
      → ((wf' : Workflow) (l : Loop)
          → Inv wf' l
          → RunOk (run_of u literal_eval services pool_models g wf' l))
      → Holds RunOk
          (run_workflow u literal_eval services pool_models g has_conductor levels wf task w).0
  unfolding run_workflow
  run_workflow-Holds has_conductor zero wf task w can h q =
      all_steps-Holds none task wf w RunOk tt h (q wf)
  run_workflow-Holds false (suc levels) wf task w can h q =
      all_steps-Holds none task wf w RunOk tt h (q wf)
  run_workflow-Holds true (suc levels) wf task w can h q =
      all_steps-Holds (some (run_workflow u literal_eval services pool_models g true levels)) task
        wf w RunOk (can, λ wf' task' w' valid. run_workflow-Holds true levels wf' task' w' can h q)
        h (q wf)
