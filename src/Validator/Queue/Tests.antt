-- ===== src/Validator/Queue/Tests.antt =====
-- A table with a running job of a submission and a job that waits for another one.
use minirouter.Prelude.{◌≡◌, refl, false, none, some, List, [], ◌∷◌, codes, text_eq}
use minirouter.Py.{pos}
use minirouter.Validator.Queue.{
  JobQueue, queued, running, Request, dedupe_key_of, find_key, enqueue,
}
use minirouter.Validator.Queue.Keys.{KeysUnique}
use minirouter.Validator.Queue.Enqueue.{IsFresh, enqueue-KeysUnique, enqueue-IsFresh}
use minirouter.Validator.Queue.Jobs.{Settings, Store, enqueue_submission_pipeline_job}
use minirouter.Validator.Queue.Pipeline.{IsPipelined, enqueue_submission_pipeline_job-IsPipelined}

abbrev running_job : JobQueue
running_job = record {
  id = codes "u1";
  job_type = codes "evaluation";
  job_id = codes "s1";
  submission_id = some (codes "s1");
  queue_name = codes "default";
  status = running;
  priority = pos 0;
  dedupe_key = some (codes "evaluation:s1");
  claimed_by = some (codes "worker");
  claimed_at = some 5;
  heartbeat_at = some 5;
  attempts = 1;
  max_attempts = 3;
  next_run_at = some 1;
  last_error = none;
  payload_json = none;
  created_at = 1;
  updated_at = 5;
}

abbrev waiting_job : JobQueue
waiting_job = record running_job {
  id = codes "u2";
  job_id = codes "s2";
  submission_id = some (codes "s2");
  status = queued;
  dedupe_key = some (codes "evaluation:s2");
  claimed_by = none;
  claimed_at = none;
  heartbeat_at = none;
}

abbrev table : List JobQueue
table = running_job ∷ waiting_job ∷ []

abbrev request : Request
request = record {
  job_type = codes "evaluation";
  job_id = codes "s1";
  submission_id = some (codes "s1");
  queue_name = codes "default";
  priority = pos 1;
  payload = [];
}

table_keys : KeysUnique table
unfolding find_key text_eq
table_keys = (refl, (refl, tt))

enqueue-KeysUnique_example : KeysUnique (enqueue 9 (codes "u3") request table).0
enqueue-KeysUnique_example = enqueue-KeysUnique 9 (codes "u3") request table table_keys

other_key : text_eq (codes "evaluation:s2") (dedupe_key_of request) ≡ false
unfolding text_eq
other_key = refl

enqueue-IsFresh_example :
    (job : JobQueue) × (find_key (dedupe_key_of request) (enqueue 9 (codes "u3") request table).0
      ≡ some job)
    × ((enqueue 9 (codes "u3") request table).1 ≡ job)
    × IsFresh 9 request job
enqueue-IsFresh_example = enqueue-IsFresh 9 (codes "u3") request table

abbrev store : Store
store = record {
  jobs = table;
  trains = [];
  submission = record {
    id = codes "s1";
    source = codes "github_pr";
    repo_full_name = some (codes "a/b");
    pr_number = some 4;
    head_sha = none;
    benchmark_names_json = [];
    submission_artifact_id = none;
    latest_train_id = none;
    latest_eval_id = none;
    best_eval_id = none;
    latest_score = none;
    status = running;
    updated_at = 1;
    finished_at = none;
  };
}

abbrev train_eval : Settings
train_eval = record { pipeline_mode = codes "train_eval"; train_benchmark = codes "math500" }

enqueue_submission_pipeline_job-IsPipelined_example : IsPipelined 9 1 train_eval store (
    enqueue_submission_pipeline_job 9
      (codes "u3")
      1
      train_eval
      (codes "default")
      (pos 0)
      none
      store)
enqueue_submission_pipeline_job-IsPipelined_example =
    enqueue_submission_pipeline_job-IsPipelined 9 (codes "u3") 1 train_eval (codes "default")
      (pos 0) none store table_keys
