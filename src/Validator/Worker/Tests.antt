-- ===== src/Validator/Worker/Tests.antt =====
-- A round on the evaluation of a pull request, which is merged; and one whose runner raises.
use minirouter.Prelude.{
  ℕ, zero, suc, ◌+◌, ◌≡◌, refl, Bool, true, false, Option, none, some, [], ◌∷◌, ◌++◌, Text, codes,
  text_eq, get_elem?, ltb, leb,
}
use minirouter.Py.{pos}
use minirouter.Validator.Queue.{JobQueue, queued, completed}
use minirouter.Validator.Queue.Jobs.{Submission}
use minirouter.Validator.Claim.{next_job, claim, is_eligible, github_pr_exists}
use minirouter.Validator.Claim.Order.{IsOrder}
use minirouter.Validator.Worker.{
  Store, Try, got, threw, Ended, Services, Builtins, Scores, find_job, update_job, finish_job,
  should_promote_submission,
}
use minirouter.Validator.Worker.Evaluation.{prepare}
use minirouter.Validator.Worker.Run.{run_job, fail_store, fail_tables, process_once}
use minirouter.Validator.Worker.Table.{IsTable}
use minirouter.Validator.Worker.Settled.{IsSettled, process_once-IsSettled}
use minirouter.Validator.Worker.King.{KingRises, process_once-KingRises}

abbrev job : JobQueue
job = record {
  id = codes "u1";
  job_type = codes "evaluation";
  job_id = codes "s1";
  submission_id = some (codes "s1");
  queue_name = codes "default";
  status = queued;
  priority = pos 0;
  dedupe_key = some (codes "evaluation:s1");
  claimed_by = none;
  claimed_at = none;
  heartbeat_at = none;
  attempts = 0;
  max_attempts = 3;
  next_run_at = some 1;
  last_error = none;
  payload_json = none;
  created_at = 3;
  updated_at = 3;
}

abbrev pull_request : Submission
pull_request = record {
  id = codes "s1";
  source = codes "github_pr";
  repo_full_name = none;
  pr_number = none;
  head_sha = none;
  benchmark_names_json = [];
  submission_artifact_id = none;
  latest_train_id = none;
  latest_eval_id = none;
  best_eval_id = none;
  latest_score = none;
  status = queued;
  updated_at = 1;
  finished_at = none;
}

abbrev store : Store ℕ
store = record {
  jobs = job ∷ [];
  tables = record { submissions = pull_request ∷ []; trains = []; evaluations = [] };
  king_score = some 7;
}

abbrev ended : Ended ℕ
ended = record { status = completed; error = none; finished_at = some 20; score = some 9 }

-- The state counts the calls.
abbrev services : Try (Ended ℕ) → Services ℕ ℕ
services evaluated = record {
  evaluate_provider_route = λ evaluation tables w. ((threw (codes "no route"), w), tables);
  run_train_job = λ train root tables w. ((threw (codes "no trainer"), w), tables);
  evaluate_submission = λ submission args tables w. ((evaluated, w + 1), tables);
  fetch_github_pr_source = λ submission w. (got (codes "src"), w + 1);
  find_submission_checkpoint = λ root w. (got (some (codes "theta.npy")), w + 1);
  set_commit_status = λ submission state w. w + 1;
  publish_submission_result = λ submission r accepted w. w + 1;
  merge_pull_request = λ submission w. (true, w + 1);
  close_pull_request = λ submission w. w + 1;
}

abbrev builtins : Builtins
builtins = record {
  truthy = λ v. true;
  str_of = λ v. [];
  int_of = λ v. threw (codes "not a number");
  int_text = λ s. threw (codes "not a number");
}

abbrev scores : Scores ℕ
scores = record { at_least = λ m n. leb n m; above = λ m n. ltb n m; threshold = 5 }

abbrev unordered : Text → Text → Bool
unordered a b = false

abbrev round : Try (Ended ℕ) → ℕ × Store ℕ × ℕ
round evaluated =
    process_once (services evaluated) builtins scores 20 (codes "u2") unordered (λ j. false) true
      store 0

merged : ((round (got ended)).1.king_score ≡ some 9) × ((round (got ended)).2 ≡ 6)
unfolding process_once next_job is_eligible github_pr_exists text_eq run_job prepare finish_job
    update_job should_promote_submission claim
merged = (refl, refl)

raised : (round (threw (codes "no GPU"))).2 ≡ 5
unfolding process_once next_job is_eligible github_pr_exists text_eq run_job prepare finish_job
    update_job should_promote_submission claim fail_store fail_tables
raised = refl

one_row : IsTable (job ∷ [])
unfolding find_job text_eq
one_row = record { primary = primary; keyed = keyed }
  where
    primary :
        (i : ℕ) (j : JobQueue) → get_elem? (job ∷ []) i ≡ some j → find_job j.id (job ∷ []) ≡ some j
    primary zero j h = let e : job ≡ j = some-injective h in rw (← e)
      where
        some-injective : {x y : JobQueue} → Option.some x ≡ some y → x ≡ y
        some-injective p = cc
    primary (suc i) j h = cc

    keyed :
        (i : ℕ) (j : JobQueue)
        → get_elem? (job ∷ []) i ≡ some j
        → j.dedupe_key ≡ some (j.job_type ++ (codes ":" ++ j.job_id))
    keyed zero j h = let e : job ≡ j = some-injective h in rw (← e)
      where
        some-injective : {x y : JobQueue} → Option.some x ≡ some y → x ≡ y
        some-injective p = cc
    keyed (suc i) j h = cc

unordered-IsOrder : IsOrder unordered
unordered-IsOrder = record { asym = λ x y h. refl; between = λ x y z h. h }

chosen : next_job unordered (λ j. false) true (pull_request ∷ []) (job ∷ []) ≡ some job
unfolding next_job is_eligible github_pr_exists text_eq
chosen = refl

process_once-IsSettled_example :
    ((round (threw (codes "no GPU"))).0 ≡ 1)
    × IsSettled (codes "u1") (some (codes "evaluation:s1")) (round (threw (codes "no GPU"))).1.jobs
process_once-IsSettled_example =
    process_once-IsSettled (services (threw (codes "no GPU"))) builtins scores 20 (codes "u2")
      unordered (λ j. false) true store 0 one_row unordered-IsOrder chosen

process_once-KingRises_example : KingRises scores (some 7) (round (got ended)).1.king_score
process_once-KingRises_example =
    process_once-KingRises (services (got ended)) builtins scores 20 (codes "u2") unordered
      (λ j. false) true store 0
