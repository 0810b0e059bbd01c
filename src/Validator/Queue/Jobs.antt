-- ===== src/Validator/Queue/Jobs.antt =====
-- The three kinds of jobs, and the pipeline that starts a submission. `payload_json or {...}` takes
-- the default for an empty object too. A submission's id is a text, a training run's and an
-- evaluation's a number. A column that these functions do not touch is left out of its record.
use minirouter.Prelude.{
  ℕ, Bool, true, false, not, ◌&&◌, Option, none, some, List, [], ◌∷◌, ◌++◌, Text, codes, text_eq,
  decimal, if◌then◌else◌,
}
use minirouter.Py.{ℤ, pos, Value, Items, nothing, int, str, list, nil, cons}
use minirouter.Validator.Queue.{JobQueue, Payload, Request, Status, queued, enqueue}

pub record Submission : Type 0 where
  pub id : Text
  pub source : Text
  pub repo_full_name : Option Text
  pub pr_number : Option ℕ
  pub head_sha : Option Text
  pub benchmark_names_json : List Text
  pub submission_artifact_id : Option Text
  pub latest_train_id : Option ℕ
  pub latest_eval_id : Option ℕ
  pub best_eval_id : Option ℕ
  pub latest_score : Option Value
  pub status : Status
  pub updated_at : ℕ
  pub finished_at : Option ℕ

pub record TrainRun : Type 0 where
  pub id : ℕ
  pub submission_id : Option Text
  pub source : Text
  pub benchmark_names_json : List Text
  pub warmstart_artifact_id : Option Text
  pub status : Status
  pub phase : Option Text
  pub message : Option Text
  pub error : Option Text
  pub finished_at : Option ℕ

pub record EvaluationRun : Type 0 where
  pub id : ℕ
  pub benchmark_names_json : List Text
  pub metrics_json : Option Text
  pub status : Status
  pub phase : Option Text
  pub message : Option Text
  pub error : Option Text
  pub finished_at : Option ℕ

pub record Settings : Type 0 where
  pub pipeline_mode : Text
  pub train_benchmark : Text

-- a text or `None`, a number or `None`, and a list of texts, as JSON values
abbrev text_value : Option Text → Value
text_value none = nothing
text_value (some s) = str s

abbrev number_value : Option ℕ → Value
number_value none = nothing
number_value (some n) = int (pos n)

abbrev pub texts : List Text → Items
texts [] = nil
texts (s ∷ ss) = cons (str s) (texts ss)

-- `payload_json or default`
abbrev pub payload_or : Option Payload → Payload → Payload
payload_or none default = default
payload_or (some []) default = default
payload_or (some (x ∷ xs)) default = x ∷ xs

-- `metrics_json or ""`
abbrev text_or_empty : Option Text → Text
text_or_empty none = []
text_or_empty (some s) = s

unfoldable pub submission_request : Submission → Text → Text → ℤ → Option Payload → Request
submission_request submission job_type queue_name priority payload_json = record {
  job_type = job_type;
  job_id = submission.id;
  submission_id = some submission.id;
  queue_name = queue_name;
  priority = priority;
  payload = payload_or payload_json (
      (codes "submission_id", str submission.id)
      ∷ (codes "job_type", str job_type)
      ∷ (codes "benchmarks", list (texts submission.benchmark_names_json))
      ∷ (codes "source", str submission.source)
      ∷ (codes "repo_full_name", text_value submission.repo_full_name)
      ∷ (codes "pr_number", number_value submission.pr_number)
      ∷ (codes "head_sha", text_value submission.head_sha)
      ∷ []);
}

unfoldable pub train_request : TrainRun → Text → ℤ → Option Payload → Request
train_request train queue_name priority payload_json = record {
  job_type = codes "train";
  job_id = decimal train.id;
  submission_id = train.submission_id;
  queue_name = queue_name;
  priority = priority;
  payload = payload_or payload_json (
      (codes "train_id", int (pos train.id))
      ∷ (codes "job_type", str (codes "train"))
      ∷ (codes "submission_id", text_value train.submission_id)
      ∷ (codes "benchmarks", list (texts train.benchmark_names_json))
      ∷ []);
}

unfoldable pub provider_eval_request : EvaluationRun → Text → ℤ → Option Payload → Request
provider_eval_request evaluation queue_name priority payload_json = record {
  job_type = codes "provider_eval";
  job_id = decimal evaluation.id;
  submission_id = none;
  queue_name = queue_name;
  priority = priority;
  payload = payload_or payload_json (
      (codes "evaluation_id", int (pos evaluation.id))
      ∷ (codes "job_type", str (codes "provider_eval"))
      ∷ (codes "benchmarks", list (texts evaluation.benchmark_names_json))
      ∷ (codes "pool_model", str (text_or_empty evaluation.metrics_json))
      ∷ []);
}

module _ (now : ℕ) (fresh : Text) where
  unfoldable pub enqueue_submission_job :
      Submission → Text → Text → ℤ → Option Payload → List JobQueue → List JobQueue × JobQueue
  unfolding enqueue submission_request
  enqueue_submission_job submission job_type queue_name priority payload_json jobs =
      enqueue now fresh (submission_request submission job_type queue_name priority payload_json)
        jobs

  unfoldable pub enqueue_train_job :
      TrainRun → Text → ℤ → Option Payload → List JobQueue → List JobQueue × JobQueue
  unfolding enqueue train_request
  enqueue_train_job train queue_name priority payload_json jobs =
      enqueue now fresh (train_request train queue_name priority payload_json) jobs

  unfoldable pub enqueue_provider_eval_job :
      EvaluationRun → Text → ℤ → Option Payload → List JobQueue → List JobQueue × JobQueue
  unfolding enqueue provider_eval_request
  enqueue_provider_eval_job evaluation queue_name priority payload_json jobs =
      enqueue now fresh (provider_eval_request evaluation queue_name priority payload_json) jobs

-- what the pipeline reads and writes: the two tables and the submission's row
pub record Store : Type 0 where
  pub jobs : List JobQueue
  pub trains : List TrainRun
  pub submission : Submission

-- submission.source != "github_pr" and submission.submission_artifact_id is None
abbrev pub has_no_input : Submission → Bool
has_no_input submission =
    not (text_eq submission.source (codes "github_pr"))
    && elim submission.submission_artifact_id [ none ↦ true | some a ↦ false ]

-- list(submission.benchmark_names_json or [settings.train_benchmark])
abbrev pub benchmarks_or : List Text → Text → List Text
benchmarks_or [] b = b ∷ []
benchmarks_or (x ∷ xs) b = x ∷ xs

-- The row that is added; `train_id` is the number that the table gives it.
unfoldable pub new_train : ℕ → Settings → Submission → TrainRun
new_train train_id settings submission = record {
  id = train_id;
  submission_id = some submission.id;
  source = submission.source;
  benchmark_names_json = benchmarks_or submission.benchmark_names_json settings.train_benchmark;
  warmstart_artifact_id = none;
  status = queued;
  phase = some (codes "queued");
  message = some (codes "train job queued");
  error = none;
  finished_at = none;
}

unfoldable pub pipeline_payload : TrainRun → Submission → Payload
pipeline_payload train submission =
    (codes "train_id", int (pos train.id))
    ∷ (codes "job_type", str (codes "train"))
    ∷ (codes "submission_id", str submission.id)
    ∷ (codes "benchmarks", list (texts train.benchmark_names_json))
    ∷ (codes "source", str submission.source)
    ∷ (codes "submission_artifact_id", text_value submission.submission_artifact_id)
    ∷ (codes "repo_full_name", text_value submission.repo_full_name)
    ∷ (codes "pr_number", number_value submission.pr_number)
    ∷ (codes "head_sha", text_value submission.head_sha)
    ∷ []

-- the submission's row behind a new training run
unfoldable pub restart : ℕ → ℕ → Submission → Submission
restart now train_id submission = record submission {
  latest_train_id = some train_id;
  latest_eval_id = none;
  best_eval_id = none;
  latest_score = none;
  status = queued;
  updated_at = now;
}

unfoldable pub enqueue_submission_pipeline_job :
    ℕ → Text → ℕ → Settings → Text → ℤ → Option Payload → Store → Option JobQueue × Store
unfolding enqueue_submission_job enqueue_train_job new_train pipeline_payload restart
enqueue_submission_pipeline_job now fresh train_id settings queue_name priority payload_json store =
    let submission = store.submission in
    let train = new_train train_id settings submission in
    if has_no_input submission
    then (none, store)
    else if text_eq settings.pipeline_mode (codes "train_eval")
    then (let (jobs, job) =
          enqueue_train_job now fresh train queue_name priority
            (some (payload_or payload_json (pipeline_payload train submission))) store.jobs in
        (
          some job,
          record {
            jobs = jobs;
            trains = store.trains ++ train ∷ [];
            submission = restart now train_id submission;
          },
        ))
    else (let (jobs, job) =
          enqueue_submission_job now fresh submission (codes "evaluation") queue_name priority
            payload_json store.jobs in
        (some job, record store { jobs = jobs }))
