-- ===== src/Fugu/Eval/Bounds.antt =====
-- How many rollouts are in flight, which runs are counted, and what the cap still lets through.
use minirouter.Prelude.{
  ℕ, ◌+◌, ◌≤◌, ◌≡◌, refl, Bool, true, false, not, ◌&&◌, Bool-cases, inl, inr, List, [], ◌∷◌, ◌++◌,
  length, length-append, ltb, if◌then◌else◌, arith,
}
use minirouter.Types.{Task}
use minirouter.Fugu.Execute.State.{WorkflowRun}
use minirouter.Fugu.Grpo.{Money, CostMeter, add_run}
use minirouter.Fugu.Eval.{
  Phase, waiting, queued, skipped, awaiting, left, State, permit, in_flight, permits, loop_head,
  place, resolved, Step, skip, begin, line_up, admit, resolve, Steps, stay, ◌then◌, all_waiting,
  start,
}

-- the runs that a task has back
abbrev pub ballot : Phase → ℕ
ballot (awaiting runs) = length runs
ballot (left runs) = length runs
ballot _ = 0

unfoldable pub counted : List Phase → ℕ
counted [] = 0
counted (p ∷ ps) = ballot p + counted ps

in_flight-append :
    (xs : List Phase) (p : Phase) (ys : List Phase)
    → in_flight (xs ++ p ∷ ys) ≡ in_flight xs + (permit p + in_flight ys)
unfolding in_flight
in_flight-append [] p ys = omega arith
in_flight-append (x ∷ xs) p ys = let e = in_flight-append xs p ys in omega arith

counted-append :
    (xs : List Phase) (p : Phase) (ys : List Phase)
    → counted (xs ++ p ∷ ys) ≡ counted xs + (ballot p + counted ys)
unfolding counted
counted-append [] p ys = omega arith
counted-append (x ∷ xs) p ys = let e = counted-append xs p ys in omega arith

module _ {M : Type 0} (money : Money M) (reps concurrency : ℕ) (before : ℕ) where
  -- The semaphore's bound, and a meter that counts every run that a task has back.
  pub record IsSound (s : State M) : Type 0 where
    pub bounded : in_flight s.phases ≤ permits concurrency
    pub all_counted : s.meter.runs ≡ before + counted s.phases

  loop_head-permit : (a : Bool) (runs : List WorkflowRun) → permit (loop_head reps a runs) ≤ 1
  unfolding loop_head
  loop_head-permit a runs = elim (Bool-cases (ltb (length runs) reps && not a)) [
    | inl e ↦ rw e (omega arith)
    | inr e ↦ rw e (omega arith)
  ]

  loop_head-ballot :
      (a : Bool) (runs : List WorkflowRun) → ballot (loop_head reps a runs) ≡ length runs
  unfolding loop_head
  loop_head-ballot a runs = elim (Bool-cases (ltb (length runs) reps && not a)) [
    | inl e ↦ rw e refl
    | inr e ↦ rw e refl
  ]

  -- One task's phase changes: the others keep the bound and the count.
  place-IsSound :
      (m m' : CostMeter M) (a a' : Bool) (front back : List Phase) (p q : Phase)
      → IsSound (place m a front p back)
      → in_flight front + (permit q + in_flight back) ≤ permits concurrency
      → m'.runs + ballot p ≡ m.runs + ballot q
      → IsSound (place m' a' front q back)
  place-IsSound m m' a a' front back p q h b c = record {
    bounded = omega (arith, b, in_flight-append front q back);
    all_counted =
        omega (arith, c, h.all_counted, counted-append front p back, counted-append front q back);
  }

  choose : (P : State M → Type 0) (b : Bool) (x y : State M) → P x → P y → P (if b then x else y)
  choose P true x y p q = p
  choose P false x y p q = q

  add_run-runs : (m : CostMeter M) (run : WorkflowRun) → (add_run money run m).runs ≡ m.runs + 1
  unfolding add_run
  add_run-runs m run = refl

  resolved-IsSound :
      (m : CostMeter M) (a : Bool) (front back : List Phase) (runs : List WorkflowRun)
      (run : WorkflowRun)
      → IsSound (place m a front (awaiting runs) back)
      → IsSound
          (resolved money reps concurrency (add_run money run m) a front (runs ++ run ∷ []) back)
  unfolding resolved
  resolved-IsSound m a front back runs run h =
      let m' = add_run money run m in
      let runs' = runs ++ run ∷ [] in
      let more = length-append runs (run ∷ []) in
      let held = in_flight-append front (awaiting runs) back in
      choose IsSound m'.aborted (place m' true front (left runs') back)
        (place m' a front (loop_head reps a runs') back)
        (place-IsSound m m' a true front back (awaiting runs) (left runs') h
          (omega (arith, h.bounded)) (omega (arith, add_run-runs m run)))
        (place-IsSound m m' a a front back (awaiting runs) (loop_head reps a runs') h
          (omega (arith, h.bounded, loop_head-permit a runs'))
          (omega (arith, add_run-runs m run, loop_head-ballot a runs')))

  Step-IsSound : {s t : State M} → Step money reps concurrency s t → IsSound s → IsSound t
  Step-IsSound (skip m front back) h =
      place-IsSound m m true true front back waiting skipped h
        (omega (arith, h.bounded, in_flight-append front waiting back)) (omega arith)
  Step-IsSound (begin m front back b) h =
      place-IsSound m m false false front back waiting (loop_head reps false []) h
        (omega (arith, b, loop_head-permit false [])) (omega (arith, loop_head-ballot false []))
  Step-IsSound (line_up m front back b) h =
      place-IsSound m m false false front back waiting queued h
        (omega (arith, h.bounded, in_flight-append front waiting back)) (omega arith)
  Step-IsSound (admit m a front back b) h =
      place-IsSound m m a a front back queued (loop_head reps a []) h
        (omega (arith, b, loop_head-permit a [])) (omega (arith, loop_head-ballot a []))
  Step-IsSound (resolve m a front back runs run) h = resolved-IsSound m a front back runs run h

  Steps-IsSound : {s t : State M} → Steps money reps concurrency s t → IsSound s → IsSound t
  Steps-IsSound stay h = h
  Steps-IsSound (step then rest) h = Steps-IsSound rest (Step-IsSound step h)

  -- Once the flag is set it stays, and what is counted or in flight is no more than before.
  record IsStopped (s t : State M) : Type 0 where
    flagged : t.aborted ≡ true
    no_more : t.meter.runs + in_flight t.phases ≤ s.meter.runs + in_flight s.phases

  loop_head-stopped : (runs : List WorkflowRun) → permit (loop_head reps true runs) ≡ 0
  unfolding loop_head
  loop_head-stopped runs = elim (Bool-cases (ltb (length runs) reps)) [
    | inl e ↦ rw e refl
    | inr e ↦ rw e refl
  ]

  place-IsStopped :
      (m m' : CostMeter M) (front back : List Phase) (p q : Phase)
      → m'.runs + permit q ≤ m.runs + permit p
      → IsStopped (place m true front p back) (place m' true front q back)
  place-IsStopped m m' front back p q h = record {
    flagged = refl;
    no_more = omega (arith, h, in_flight-append front p back, in_flight-append front q back);
  }

  resolved-IsStopped :
      (m : CostMeter M) (front back : List Phase) (runs : List WorkflowRun) (run : WorkflowRun)
      → IsStopped
          (place m true front (awaiting runs) back)
          (resolved money reps concurrency (add_run money run m) true front (runs ++ run ∷ []) back)
  unfolding resolved
  resolved-IsStopped m front back runs run =
      let m' = add_run money run m in
      let runs' = runs ++ run ∷ [] in
      let s = place m true front (awaiting runs) back in
      choose (IsStopped s) m'.aborted (place m' true front (left runs') back)
        (place m' true front (loop_head reps true runs') back)
        (place-IsStopped m m' front back (awaiting runs) (left runs')
          (omega (arith, add_run-runs m run)))
        (place-IsStopped m m' front back (awaiting runs) (loop_head reps true runs')
          (omega (arith, add_run-runs m run, loop_head-stopped runs')))

  Step-IsStopped :
      {s t : State M} → Step money reps concurrency s t → s.aborted ≡ true → IsStopped s t
  Step-IsStopped (skip m front back) h =
      place-IsStopped m m front back waiting skipped (omega arith)
  Step-IsStopped (begin m front back b) h = absurd (ground arith)
  Step-IsStopped (line_up m front back b) h = absurd (ground arith)
  Step-IsStopped (admit m a front back b) h = rw h (
      place-IsStopped m m front back queued (loop_head reps true [])
        (omega (arith, loop_head-stopped [])))
  Step-IsStopped (resolve m a front back runs run) h =
      rw h (resolved-IsStopped m front back runs run)

  Steps-IsStopped :
      {s t : State M} → Steps money reps concurrency s t → s.aborted ≡ true → IsStopped s t
  Steps-IsStopped stay h = record { flagged = h; no_more = omega arith }
  Steps-IsStopped (step then rest) h =
      let one = Step-IsStopped step h in
      let more = Steps-IsStopped rest one.flagged in
      record { flagged = more.flagged; no_more = omega (arith, one.no_more, more.no_more) }

all_waiting-idle :
    (tasks : List Task) → (in_flight (all_waiting tasks) ≡ 0) × (counted (all_waiting tasks) ≡ 0)
unfolding all_waiting in_flight counted
all_waiting-idle [] = (refl, refl)
all_waiting-idle (t ∷ ts) = let (a, c) = all_waiting-idle ts in (omega arith, omega arith)

module _ {M : Type 0} (money : Money M) (reps concurrency : ℕ) (meter : CostMeter M)
    (tasks : List Task) where
  -- In every order of the tasks' steps, at most `max(1, concurrency)` rollouts are in flight, and
  -- the meter has counted each run that a task has back, and no other.
  pub evaluate-IsSound :
      {s : State M}
      → Steps money reps concurrency (start meter tasks) s
      → IsSound money reps concurrency meter.runs s
  evaluate-IsSound steps =
      let (idle, none_counted) = all_waiting-idle tasks in
      Steps-IsSound money reps concurrency meter.runs steps
        (record { bounded = omega arith; all_counted = omega arith })

  -- Once a task has found the cap crossed, the flag stays set, and in every further order of steps
  -- at most `max(1, concurrency)` more runs are counted.
  pub evaluate_overspend :
      {s t : State M}
      → Steps money reps concurrency (start meter tasks) s
      → s.aborted ≡ true
      → Steps money reps concurrency s t
      → (t.aborted ≡ true) × (t.meter.runs ≤ s.meter.runs + permits concurrency)
  evaluate_overspend before h after =
      let sound = evaluate-IsSound before in
      let stopped = Steps-IsStopped money reps concurrency meter.runs after h in
      (stopped.flagged, omega (arith, sound.bounded, stopped.no_more))
