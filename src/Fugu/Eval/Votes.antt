-- ===== src/Fugu/Eval/Votes.antt =====
-- How many votes a ballot has.
use minirouter.Prelude.{
  ℕ, ◌≤◌, ◌<◌, ◌≡◌, refl, Bool, true, false, not, ◌&&◌, Bool-cases, inl, inr, List, [], ◌∷◌, ◌++◌,
  length, length-append, ltb, if◌then◌else◌, arith,
}
use minirouter.Types.{Task}
use minirouter.Fugu.Execute.State.{WorkflowRun}
use minirouter.Fugu.Grpo.{Money, CostMeter, add_run}
use minirouter.Fugu.Eval.{
  Phase, waiting, queued, skipped, awaiting, left, State, loop_head, place, resolved, Step, skip,
  begin, line_up, admit, resolve, Steps, stay, ◌then◌, all_waiting, start,
}

-- A ballot that goes on has fewer votes than there are repetitions. One that has ended has at most
-- as many, and just as many where the flag is not set; without the flag no task is passed over.
unfoldable pub IsBallot : ℕ → Bool → Phase → Type 0
IsBallot reps aborted (awaiting runs) = length runs < reps
IsBallot reps aborted (left runs) = (length runs ≤ reps) × (aborted ≡ false → length runs ≡ reps)
IsBallot reps aborted skipped = aborted ≡ true
IsBallot reps aborted waiting = Unit
IsBallot reps aborted queued = Unit

pub data AreBallots (reps : ℕ) (aborted : Bool) : List Phase → Type 0 where
  no_task : AreBallots reps aborted []
  task :
      {p : Phase} {ps : List Phase}
      → IsBallot reps aborted p
      → AreBallots reps aborted ps
      → AreBallots reps aborted (p ∷ ps)

module _ (reps : ℕ) where
  IsBallot-set : (a : Bool) (p : Phase) → IsBallot reps a p → IsBallot reps true p
  unfolding IsBallot
  IsBallot-set a (awaiting runs) h = h
  IsBallot-set a (left runs) h = (h.0, λ e. absurd (ground arith))
  IsBallot-set a skipped h = refl
  IsBallot-set a waiting h = tt
  IsBallot-set a queued h = tt

  AreBallots-set : {a : Bool} {ps : List Phase} → AreBallots reps a ps → AreBallots reps true ps
  AreBallots-set no_task = no_task
  AreBallots-set {a} (task {p = p} h hs) = task (IsBallot-set a p h) (AreBallots-set hs)

  -- One phase may change between the others.
  AreBallots-at :
      (a : Bool) (front : List Phase) (p : Phase) (back : List Phase)
      → AreBallots reps a (front ++ p ∷ back)
      → (q : Phase) → IsBallot reps a q
      → AreBallots reps a (front ++ q ∷ back)
  AreBallots-at a [] p back (task h hs) q k = task k hs
  AreBallots-at a (x ∷ front) p back (task h hs) q k = task h (AreBallots-at a front p back hs q k)

  AreBallots-there :
      (a : Bool) (front : List Phase) (p : Phase) (back : List Phase)
      → AreBallots reps a (front ++ p ∷ back)
      → IsBallot reps a p
  AreBallots-there a [] p back (task h hs) = h
  AreBallots-there a (x ∷ front) p back (task h hs) = AreBallots-there a front p back hs

  loop_head-IsBallot :
      (a : Bool) (runs : List WorkflowRun)
      → length runs ≤ reps
      → IsBallot reps a (loop_head reps a runs)
  unfolding loop_head IsBallot
  loop_head-IsBallot a runs h = elim (Bool-cases (ltb (length runs) reps && not a)) [
    | inl e ↦ rw e (ground arith)
    | inr e ↦ rw e (h, λ u. ground arith)
  ]

  module _ {M : Type 0} (money : Money M) (concurrency : ℕ) where
    abbrev Sound : State M → Type 0
    Sound s = AreBallots reps s.aborted s.phases

    choose : (b : Bool) (x y : State M) → Sound x → Sound y → Sound (if b then x else y)
    choose true x y p q = p
    choose false x y p q = q

    resolved-AreBallots :
        (m : CostMeter M) (a : Bool) (front back : List Phase) (runs : List WorkflowRun)
        (run : WorkflowRun)
        → AreBallots reps a (front ++ awaiting runs ∷ back)
        → Sound (resolved money reps concurrency m a front (runs ++ run ∷ []) back)
    unfolding resolved IsBallot
    resolved-AreBallots m a front back runs run h =
        let runs' = runs ++ run ∷ [] in
        let more = length-append runs (run ∷ []) in
        let short = AreBallots-there a front (awaiting runs) back h in
        choose m.aborted (place m true front (left runs') back)
          (place m a front (loop_head reps a runs') back)
          (AreBallots-at true front (awaiting runs) back (AreBallots-set h) (left runs')
            (omega arith, λ e. absurd (ground arith)))
          (AreBallots-at a front (awaiting runs) back h (loop_head reps a runs')
            (loop_head-IsBallot a runs' (omega arith)))

    Step-AreBallots : {s t : State M} → Step money reps concurrency s t → Sound s → Sound t
    unfolding IsBallot
    Step-AreBallots (skip m front back) h = AreBallots-at true front waiting back h skipped refl
    Step-AreBallots (begin m front back b) h =
        AreBallots-at false front waiting back h (loop_head reps false [])
          (loop_head-IsBallot false [] (omega arith))
    Step-AreBallots (line_up m front back b) h = AreBallots-at false front waiting back h queued tt
    Step-AreBallots (admit m a front back b) h =
        AreBallots-at a front queued back h (loop_head reps a [])
          (loop_head-IsBallot a [] (omega arith))
    Step-AreBallots (resolve m a front back runs run) h =
        resolved-AreBallots (add_run money run m) a front back runs run h

    Steps-AreBallots : {s t : State M} → Steps money reps concurrency s t → Sound s → Sound t
    Steps-AreBallots stay h = h
    Steps-AreBallots (step then rest) h = Steps-AreBallots rest (Step-AreBallots step h)

    all_waiting-AreBallots : (tasks : List Task) → AreBallots reps false (all_waiting tasks)
    unfolding all_waiting IsBallot
    all_waiting-AreBallots [] = no_task
    all_waiting-AreBallots (t ∷ ts) = task tt (all_waiting-AreBallots ts)

    -- In every order of the tasks' steps, no ballot has more votes than the repetitions, and one
    -- that has ended has just as many, and no task is passed over, unless the cap was crossed.
    pub evaluate-AreBallots :
        (meter : CostMeter M) (tasks : List Task) {s : State M}
        → Steps money reps concurrency (start meter tasks) s
        → AreBallots reps s.aborted s.phases
    evaluate-AreBallots meter tasks steps = Steps-AreBallots steps (all_waiting-AreBallots tasks)
