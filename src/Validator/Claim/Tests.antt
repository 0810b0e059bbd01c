-- ===== src/Validator/Claim/Tests.antt =====
-- A choice among three rows: a job of a pull request, and two of uploads.
use minirouter.Prelude.{◌≡◌, refl, Bool, false, none, some, List, [], ◌∷◌, Text, codes, text_eq}
use minirouter.Py.{pos}
use minirouter.Validator.Queue.{JobQueue, queued}
use minirouter.Validator.Queue.Jobs.{Submission}
use minirouter.Validator.Claim.{github_pr_exists, is_eligible, precedes, next_job, ltz}
use minirouter.Validator.Claim.Order.{IsOrder}
use minirouter.Validator.Claim.Next.{IsNext, next_job-IsNext}

abbrev job : JobQueue
job = record {
  id = codes "u1";
  job_type = codes "evaluation";
  job_id = codes "s1";
  submission_id = some (codes "s1");
  queue_name = codes "default";
  status = queued;
  priority = pos 0;
  dedupe_key = some (codes "evaluation:s1");
  claimed_by = none;
  claimed_at = none;
  heartbeat_at = none;
  attempts = 0;
  max_attempts = 3;
  next_run_at = some 1;
  last_error = none;
  payload_json = none;
  created_at = 3;
  updated_at = 3;
}

abbrev of_pull_request : JobQueue
of_pull_request = record job { submission_id = some (codes "pr"); priority = pos 9 }

abbrev earlier : JobQueue
earlier = record job { id = codes "u2"; submission_id = none; created_at = 2 }

abbrev pull_request : Submission
pull_request = record {
  id = codes "pr";
  source = codes "github_pr";
  repo_full_name = none;
  pr_number = none;
  head_sha = none;
  benchmark_names_json = [];
  submission_artifact_id = none;
  latest_train_id = none;
  latest_eval_id = none;
  best_eval_id = none;
  latest_score = none;
  status = queued;
  updated_at = 1;
  finished_at = none;
}

-- A table whose ids are all unordered.
abbrev unordered : Text → Text → Bool
unordered a b = false

unordered-IsOrder : IsOrder unordered
unordered-IsOrder = record { asym = λ x y h. refl; between = λ x y z h. h }

abbrev table : List JobQueue
table = of_pull_request ∷ job ∷ earlier ∷ []

chosen : next_job unordered (λ j. false) false (pull_request ∷ []) table ≡ some earlier
unfolding next_job is_eligible github_pr_exists precedes ltz text_eq
chosen = refl

next_job-IsNext_example : IsNext unordered (λ j. false) false (pull_request ∷ []) table earlier
next_job-IsNext_example =
    next_job-IsNext unordered (λ j. false) false (pull_request ∷ []) table unordered-IsOrder chosen

waits : next_job unordered (λ j. false) false (pull_request ∷ []) (of_pull_request ∷ []) ≡ none
unfolding next_job is_eligible github_pr_exists text_eq
waits = refl
