-- ===== src/Fugu/Execute/Counts.antt =====
-- The steps that a run records, and how many calls of a model it can make.
use mathlib.Core.Path.{subst}
use mathlib.Core.List.{map-append}
use minirouter.Prelude.{
  ℕ, zero, suc, ◌+◌, ◌≡◌, refl, ap, Bool, true, false, Option, none, some, List, [], ◌∷◌, ◌++◌, map,
  arith, Text, length,
}
use minirouter.Prelude.Unicode.{Unicode}
use minirouter.Py.{Value}
use minirouter.Types.{Task}
use minirouter.Fugu.Gate.{WorkflowStep, Workflow}
use minirouter.Fugu.Execute.State.{
  StepResult, WorkflowRun, conductor_key, Loop, start_loop, Produced, finish_step, count_call,
  count_run,
}
use minirouter.Fugu.Execute.Loop.{
  Services, Settings, Outcome, returns, call_failed, no_model, gate_raised, run_of, last_output,
  run_workflow,
}
use minirouter.Fugu.Execute.Rounds.{Holds, StepRules}
use minirouter.Fugu.Execute.Induction.{all_steps-Holds}

-- The results from step `i` on are those of the steps: numbered in order, with the step's model and
-- instruction.
abbrev pub Matches : ℕ → Workflow → List StepResult → Type 0
Matches i [] [] = Unit
Matches i (st ∷ sts) (r ∷ rs) =
    ((r.step ≡ i) × (r.model_id ≡ st.model_id) × (r.subtask ≡ st.subtask)) × Matches (i + 1) sts rs
Matches i _ _ = ⊥

record Recorded (done : Workflow) (l : Loop) : Type 0 where
  pub matches : Matches 0 done l.steps_out
  pub texts : l.outputs ≡ map (λ (r : StepResult). r.output) l.steps_out

Matches-append :
    (i k : ℕ) (done : Workflow) (st : WorkflowStep) (rs : List StepResult) (r : StepResult)
    → k ≡ i + length done
    → Matches i done rs
    → (r.step ≡ k) × (r.model_id ≡ st.model_id) × (r.subtask ≡ st.subtask)
    → Matches i (done ++ st ∷ []) (rs ++ r ∷ [])
Matches-append i k [] st [] r e m h = let e' : k ≡ i = omega arith in ((rw e' at h.0, h.1, h.2), tt)
Matches-append i k [] st (s ∷ rs) r e m h = absurd m
Matches-append i k (d ∷ done) st [] r e m h = absurd m
Matches-append i k (d ∷ done) st (s ∷ rs) r e m h =
    (m.0, Matches-append (i + 1) k done st rs r (omega arith) m.1 h)

finish_step-Recorded :
    (done : Workflow) (st : WorkflowStep) (p : Produced) (l : Loop)
    → Recorded done l
    → Recorded (done ++ st ∷ []) (finish_step (length done) st p l)
unfolding finish_step
finish_step-Recorded done st p l h = record {
  matches =
      Matches-append 0 (length done) done st l.steps_out _ (omega arith) h.matches
        (refl, refl, refl);
  texts = rw (map-append (λ (r : StepResult). r.output) l.steps_out _, h.texts);
}

count_call-Recorded :
    (done : Workflow) (name : Text) (pt ct : ℕ) (l : Loop)
    → Recorded done l
    → Recorded done (count_call name pt ct l)
unfolding count_call
count_call-Recorded done name pt ct l h = record { matches = h.matches; texts = h.texts }

count_run-Recorded :
    (done : Workflow) (sub : WorkflowRun) (l : Loop)
    → Recorded done l
    → Recorded done (count_run sub l)
unfolding count_run
count_run-Recorded done sub l h = record { matches = h.matches; texts = h.texts }

Recorded-rules : StepRules Unit Recorded (λ _. Unit)
Recorded-rules = record {
  by_worker = λ done st p l h.
      finish_step-Recorded done st p _ (count_call-Recorded done p.mname p.pt p.ct l h);
  by_fallback = λ done st p a b l can h. finish_step-Recorded done st p _ (
      count_call-Recorded done p.mname p.pt p.ct _
        (count_call-Recorded done conductor_key a b l h));
  by_sub = λ done st p a b sub l can h k.
      finish_step-Recorded done st p _
        (count_run-Recorded done sub _ (count_call-Recorded done conductor_key a b l h));
}

-- What a run of a workflow says of the workflow's steps.
pub record IsRunOf (wf : Workflow) (run : WorkflowRun) : Type 0 where
  pub same : run.workflow ≡ some wf
  pub parsed : run.parsed_ok ≡ true
  pub matches : Matches 0 wf run.steps_out

Holds-unit : {A : Type 0} (r : Outcome A) → Holds {0, 0} (λ _. Unit) r
Holds-unit (returns a) = tt
Holds-unit call_failed = tt
Holds-unit no_model = tt
Holds-unit gate_raised = tt

module _ {W : Type 0} (u : Unicode) (literal_eval : Text → Option Value) (services : Services W)
    (pool_models : List Text) (g : Settings) where
  -- What the run answers is the output of its last step.
  abbrev AnswersLast : WorkflowRun → Type 0
  AnswersLast run =
      run.final_answer
      ≡ last_output u literal_eval services pool_models g
          (map (λ (r : StepResult). r.output) run.steps_out)

  abbrev IsRecord : Workflow → WorkflowRun → Type 0
  IsRecord wf run = IsRunOf wf run × AnswersLast run

  is_record :
      (wf : Workflow) (l : Loop)
      → Recorded wf l
      → IsRecord wf (run_of u literal_eval services pool_models g wf l)
  is_record wf l h = (
    record { same = refl; parsed = refl; matches = h.matches },
    ap (last_output u literal_eval services pool_models g) h.texts,
  )

  started : Recorded [] start_loop
  started = record { matches = tt; texts = refl }

  recorded :
      (has_conductor : Bool) (levels : ℕ) (wf : Workflow) (task : Task) (w : W)
      → Holds
          (IsRecord wf)
          (run_workflow u literal_eval services pool_models g has_conductor levels wf task w).0
  unfolding run_workflow
  recorded has_conductor zero wf task w =
      all_steps-Holds u literal_eval services pool_models g Unit Recorded (λ _. Unit) Recorded-rules
        none task wf w (IsRecord wf) tt started (is_record wf)
  recorded false (suc levels) wf task w =
      all_steps-Holds u literal_eval services pool_models g Unit Recorded (λ _. Unit) Recorded-rules
        none task wf w (IsRecord wf) tt started (is_record wf)
  recorded true (suc levels) wf task w =
      all_steps-Holds u literal_eval services pool_models g Unit Recorded (λ _. Unit) Recorded-rules
        (some (run_workflow u literal_eval services pool_models g true levels)) task wf w
        (IsRecord wf) (tt, λ wf' task' w' valid. Holds-unit _) started (is_record wf)

  -- A run that returns has run its whole workflow: it has one result per step, in order, numbered
  -- from 0, with the step's model and instruction, and answers with the output of the last step.
  pub run_workflow-IsRunOf :
      (has_conductor : Bool) (levels : ℕ) (wf : Workflow) (task : Task) (w : W) {run : WorkflowRun}
      → (run_workflow u literal_eval services pool_models g has_conductor levels wf task w).0
        ≡ returns run
      → IsRunOf wf run
        × (run.final_answer
            ≡ last_output u literal_eval services pool_models g
                (map (λ (r : StepResult). r.output) run.steps_out))
  run_workflow-IsRunOf has_conductor levels wf task w h =
      subst (Holds (IsRecord wf)) h (recorded has_conductor levels wf task w)
