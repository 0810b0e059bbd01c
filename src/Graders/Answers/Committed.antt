-- ===== src/Graders/Answers/Committed.antt =====
-- Which text of a trajectory is scored, and how that of src/trinity/fugu/reward.py mirrors it.
use minirouter.Prelude.{
  ◌≡◌, refl, sym, ap, ◌∙◌, Bool, false, ◌||◌, List, [], ◌∷◌, ◌++◌, map, reverse, Text, arith,
  if◌then◌else◌, Bool-cases, inl, inr,
}
use mathlib.Core.List.{reverse-cons, map-append}
use minirouter.Prelude.Unicode.{Unicode}
use minirouter.Py.{Value}
use minirouter.Types.{TurnRecord, Trajectory}
use minirouter.Fugu.Execute.State.{StepResult, WorkflowRun}
use minirouter.Fugu.Reward.{Grader, last_answer}
use minirouter.Fugu.Reward
use minirouter.Graders.Json.{Loads}
use minirouter.Graders.Answers.{key_of, has_answer, recent_answer, committed_answer}

-- the grader that src/trinity/fugu/reward.py imports, with some judge of the texts
abbrev pub grader : Unicode → Loads → (Text → Text → Value → Bool) → Grader
grader u loads judge = record { has_answer = has_answer u loads; solves = judge }

-- The first text that passes a test.
unfoldable pick : (Text → Bool) → List Text → Text → Text
pick test [] final = final
pick test (t ∷ ts) final = let later = pick test ts final in if test t then t else later

abbrev pub some_passes : (Text → Bool) → List Text → Bool
some_passes test [] = false
some_passes test (t ∷ ts) = test t || some_passes test ts

some_passes-append :
    (test : Text → Bool) (xs ys : List Text)
    → some_passes test (xs ++ ys) ≡ (some_passes test xs || some_passes test ys)
some_passes-append test [] ys = refl
some_passes-append test (x ∷ xs) ys = ground (arith, some_passes-append test xs ys)

some_passes-reverse :
    (test : Text → Bool) (xs : List Text) → some_passes test (reverse xs) ≡ some_passes test xs
some_passes-reverse test [] = refl
some_passes-reverse test (x ∷ xs) =
    rw
      (
        reverse-cons x xs,
        some_passes-append test (reverse xs) (x ∷ []),
        some_passes-reverse test xs,
      )
      (ground arith)

test-pick :
    (test : Text → Bool) (ts : List Text) (final : Text)
    → test (pick test ts final) ≡ (some_passes test ts || test final)
unfolding pick
test-pick test [] final = refl
test-pick test (t ∷ ts) final = elim (Bool-cases (test t)) [
  | inl e ↦ rw (e, e) refl
  | inr e ↦ rw e (test-pick test ts final)
]

recent_answer-pick :
    (u : Unicode) (loads : Loads) (key : Text) (ts : List TurnRecord) (final : Text)
    → recent_answer u loads key ts final
      ≡ pick (has_answer u loads key) (map (λ t. t.processed_output) ts) final
unfolding recent_answer pick
recent_answer-pick u loads key [] final = refl
recent_answer-pick u loads key (t ∷ ts) final = rw (recent_answer-pick u loads key ts final) refl

last_answer-pick :
    (g : Grader) (benchmark : Text) (steps : List StepResult) (final : Text)
    → last_answer g benchmark steps final
      ≡ pick (g.has_answer benchmark) (map (λ s. s.output) steps) final
unfolding last_answer pick
last_answer-pick g benchmark [] final = refl
last_answer-pick g benchmark (s ∷ steps) final = rw (last_answer-pick g benchmark steps final) refl

map-reverse : {A : Type 0} (f : A → Text) (xs : List A) → map f (reverse xs) ≡ reverse (map f xs)
map-reverse f [] = refl
map-reverse f (x ∷ xs) =
    ap (map f) (reverse-cons x xs)
    ∙ map-append f (reverse xs) (x ∷ [])
    ∙ ap (λ t. t ++ f x ∷ []) (map-reverse f xs)
    ∙ sym (reverse-cons (f x) (map f xs))

-- The text of a trajectory that is scored has an answer exactly where the final answer or the
-- output of some turn has one: no answer that the turns produced is lost.
pub has_answer-trajectory :
    (u : Unicode) (loads : Loads) (benchmark : Text) (traj : Trajectory)
    → has_answer u loads (key_of u benchmark) (committed_answer u loads benchmark traj) ≡ (
        has_answer u loads (key_of u benchmark) traj.final_answer
        || some_passes
            (has_answer u loads (key_of u benchmark))
            (map (λ t. t.processed_output) traj.turns))
unfolding committed_answer
has_answer-trajectory u loads benchmark traj =
    let test = has_answer u loads (key_of u benchmark) in
    let outputs = map (λ t. t.processed_output) traj.turns in
    elim (Bool-cases (test traj.final_answer)) [
      | inl e ↦ rw (e, e) refl
      | inr e ↦
          rw
            (
              e,
              recent_answer-pick u loads (key_of u benchmark) (reverse traj.turns)
                  traj.final_answer,
              map-reverse (λ t. t.processed_output) traj.turns,
              test-pick test (reverse outputs) traj.final_answer,
              some_passes-reverse test outputs,
              e,
            )
            (ground arith)
    ]

-- A workflow run and a trajectory with the same outputs and the same final answer have the same
-- text graded, whatever judges it, where the benchmark's name is written as its key.
pub committed_answer-Mirrors :
    (u : Unicode) (loads : Loads) (judge : Text → Text → Value → Bool) (benchmark : Text)
    (run : WorkflowRun) (traj : Trajectory)
    → key_of u benchmark ≡ benchmark
    → map (λ s. s.output) run.steps_out ≡ map (λ t. t.processed_output) traj.turns
    → run.final_answer ≡ traj.final_answer
    → Reward.committed_answer (grader u loads judge) benchmark run
      ≡ committed_answer u loads benchmark traj
unfolding committed_answer Reward.committed_answer
committed_answer-Mirrors u loads judge benchmark run traj k o f =
    let g = grader u loads judge in
    rw
      (
        k,
        f,
        last_answer-pick g benchmark (reverse run.steps_out) traj.final_answer,
        recent_answer-pick u loads benchmark (reverse traj.turns) traj.final_answer,
        map-reverse (λ s. s.output) run.steps_out,
        map-reverse (λ t. t.processed_output) traj.turns,
        o,
      )
      refl
