-- ===== src/Fugu/Reward/Laws.antt =====
-- Which text is graded, and how the training reward stands to the correctness.
use mathlib.Core.List.{append_assoc, reverse-append, reverse-cons}
use minirouter.Prelude.{
  ◌≡◌, ◌↔◌, refl, ◌∙◌, Bool, true, false, ◌||◌, List, [], ◌∷◌, ◌++◌, reverse, arith, inl, inr, Text,
  Bool-cases,
}
use minirouter.Types.{Task}
use minirouter.Fugu.Execute.State.{StepResult, WorkflowRun}
use minirouter.Fugu.Reward.{
  Grader, last_answer, committed_answer, is_correct, parse_fail, full, training_reward,
}

-- Some step's output has an answer.
abbrev pub any_answer : Grader → Text → List StepResult → Bool
any_answer g benchmark [] = false
any_answer g benchmark (step ∷ rest) =
    g.has_answer benchmark step.output || any_answer g benchmark rest

module _ (g : Grader) (benchmark : Text) where
  last_answer_none :
      (steps : List StepResult) (final : Text)
      → any_answer g benchmark steps ≡ false
      → last_answer g benchmark steps final ≡ final
  unfolding last_answer
  last_answer_none [] final h = refl
  last_answer_none (s ∷ steps) final h = ground (arith, last_answer_none steps final)

  last_answer-append :
      (front : List StepResult) (step : StepResult) (rest : List StepResult) (final : Text)
      → any_answer g benchmark front ≡ false
      → g.has_answer benchmark step.output ≡ true
      → last_answer g benchmark (front ++ step ∷ rest) final ≡ step.output
  unfolding last_answer
  last_answer-append [] step rest final n h = rw h
  last_answer-append (s ∷ front) step rest final n h =
      elim (Bool-cases (g.has_answer benchmark s.output)) [
        | inl e ↦ absurd (ground arith)
        | inr e ↦ rw e (last_answer-append front step rest final (ground arith) h)
      ]

  any_answer-append :
      (xs ys : List StepResult)
      → any_answer g benchmark (xs ++ ys) ≡ (any_answer g benchmark xs || any_answer g benchmark ys)
  any_answer-append [] ys = refl
  any_answer-append (x ∷ xs) ys = ground (arith, any_answer-append xs ys)

  any_answer-reverse :
      (xs : List StepResult) → any_answer g benchmark (reverse xs) ≡ any_answer g benchmark xs
  any_answer-reverse [] = refl
  any_answer-reverse (x ∷ xs) =
      rw (reverse-cons x xs, any_answer-append (reverse xs) (x ∷ []), any_answer-reverse xs)
        (ground arith)

  last_answer-has_answer :
      (steps : List StepResult) (final : Text)
      → any_answer g benchmark steps ≡ true
      → g.has_answer benchmark (last_answer g benchmark steps final) ≡ true
  unfolding last_answer
  last_answer-has_answer [] final h = absurd (ground arith)
  last_answer-has_answer (s ∷ steps) final h = elim (Bool-cases (g.has_answer benchmark s.output)) [
    | inl e ↦ rw (e, e)
    | inr e ↦ rw e (last_answer-has_answer steps final (ground arith))
  ]

  -- The committed text has an answer exactly where the final answer or the output of some step has
  -- one: no answer that the run produced is lost.
  pub has_answer-committed_answer :
      (run : WorkflowRun)
      → g.has_answer benchmark (committed_answer g benchmark run)
        ≡ (g.has_answer benchmark run.final_answer || any_answer g benchmark run.steps_out)
  unfolding committed_answer
  has_answer-committed_answer run = elim (Bool-cases (g.has_answer benchmark run.final_answer)) [
    | inl e ↦ rw (e, e)
    | inr e ↦ elim (Bool-cases (any_answer g benchmark run.steps_out)) [
      | inl q ↦
          rw (e, q)
            (last_answer-has_answer (reverse run.steps_out) run.final_answer
              (any_answer-reverse run.steps_out ∙ q))
      | inr q ↦ rw (
        e,
        q,
        last_answer_none (reverse run.steps_out) run.final_answer
            (any_answer-reverse run.steps_out ∙ q),
        e,
      )
    ]
  ]

  -- Where the final answer has no answer of the benchmark's shape, the output of the last step that
  -- has one is committed.
  pub committed_answer_last :
      (run : WorkflowRun) (before after : List StepResult) (step : StepResult)
      → g.has_answer benchmark run.final_answer ≡ false
      → run.steps_out ≡ before ++ step ∷ after
      → g.has_answer benchmark step.output ≡ true
      → any_answer g benchmark after ≡ false
      → committed_answer g benchmark run ≡ step.output
  unfolding committed_answer
  committed_answer_last run before after step f e h n =
      rw
        (
          f,
          e,
          reverse-append before (step ∷ after),
          reverse-cons step after,
          append_assoc (reverse after) (step ∷ []) (reverse before),
        )
        (last_answer-append (reverse after) step (reverse before) run.final_answer
          (any_answer-reverse after ∙ n) h)

-- The training reward is full exactly for a correct run, and the parse-fail floor exactly for a run
-- that the gate rejected; a run that is correct has parsed.
pub training_reward-is_correct :
    (g : Grader) (run : WorkflowRun) (task : Task)
    → ((training_reward g run task ≡ full) ↔ (is_correct g run task ≡ true))
      × ((training_reward g run task ≡ parse_fail) ↔ (run.parsed_ok ≡ false))
unfolding training_reward is_correct
training_reward-is_correct g run task = (ground arith, ground arith)
