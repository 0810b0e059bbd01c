-- ===== src/Fugu/Eval/Tests.antt =====
-- Two tasks of one repetition, one at a time, under a cap that the first run crosses.
use minirouter.Prelude.{ℕ, ◌+◌, ◌≤◌, ◌≡◌, refl, true, false, none, some, List, [], ◌∷◌, arith}
use minirouter.Types.{Task}
use minirouter.Fugu.Reward.{is_correct}
use minirouter.Fugu.Grpo.{CostMeter, add_run}
use minirouter.Fugu.Grpo.Tests.{units, never, rejected, task, meter}
use minirouter.Fugu.Eval.{
  State, left, queued, place, loop_head, resolved, begin, line_up, admit, resolve, Steps, stay,
  ◌then◌, start, in_flight, permits, all_waiting, waiting, query_binary,
}
use minirouter.Fugu.Eval.Bounds.{IsSound, evaluate-IsSound, evaluate_overspend}
use minirouter.Fugu.Eval.Votes.{AreBallots, evaluate-AreBallots}

abbrev two : List Task
two = task ∷ task ∷ []

abbrev over : CostMeter ℕ
over = add_run units rejected (meter 3)

abbrev crossed : State ℕ
crossed = place over true [] (left (rejected ∷ [])) (queued ∷ [])

abbrev ended : State ℕ
ended = place over true (left (rejected ∷ []) ∷ []) (left []) []

first_run : Steps units 1 1 (start (meter 3) two) crossed
unfolding all_waiting loop_head in_flight resolved add_run
first_run =
    begin (meter 3) [] (waiting ∷ []) (omega arith)
    then line_up (meter 3) (loop_head 1 false [] ∷ []) [] (omega arith)
    then resolve (meter 3) false [] (queued ∷ []) [] rejected
    then stay

last_task : Steps units 1 1 crossed ended
unfolding all_waiting loop_head in_flight resolved add_run
last_task = admit over true (left (rejected ∷ []) ∷ []) [] (omega arith) then stay

-- A tie is no majority, and a task without a vote has no entry.
no_majority : query_binary never task (left (rejected ∷ [])) ≡ some false
unfolding query_binary is_correct
no_majority = refl

no_entry : query_binary never task (left []) ≡ none
unfolding query_binary
no_entry = refl

evaluate-IsSound_example : IsSound units 1 1 0 crossed
evaluate-IsSound_example = evaluate-IsSound units 1 1 (meter 3) two first_run

evaluate_overspend_example :
    (true ≡ true)
    × ((add_run units rejected (meter 3)).runs
        ≤ (add_run units rejected (meter 3)).runs + permits 1)
evaluate_overspend_example = evaluate_overspend units 1 1 (meter 3) two first_run refl last_task

evaluate-AreBallots_example : AreBallots 1 true (left (rejected ∷ []) ∷ queued ∷ [])
evaluate-AreBallots_example = evaluate-AreBallots 1 units 1 (meter 3) two first_run
