-- ===== src/Validator/Worker/Jobs.antt =====
-- validator/src/eval_backend/worker.py: the provider evaluations and the training jobs of
-- `process_once`.
use minirouter.Prelude.{
  ℕ, Option, none, some, [], ◌∷◌, ◌++◌, Text, codes, text_eq, ◌==◌, if◌then◌else◌,
}
use minirouter.Py.{Value, str, int, list, pos}
use minirouter.Validator.Queue.{JobQueue, Payload}
use minirouter.Validator.Queue.Jobs.{
  Submission, TrainRun, EvaluationRun, texts, enqueue_submission_job,
}
use minirouter.Validator.Worker.{
  Tables, Store, Try, got, threw, Action, pure, ◌>>=◌, Ended, Artifact, Services, Builtins, Scores,
  update_job, first_with, is_completed, finish_job, is_github,
}

-- What is known where an exception is caught.
pub record Failure : Type 0 where
  pub message : Text
  pub train_id : Option ℕ
  pub evaluation_id : Option ℕ
  pub submission_id : Option Text

-- The job's branch ended with a commit, or raised.
pub data Handled (W S : Type 0) : Type 0 where
  done : Store S → W → Handled W S
  broke : Failure → W → Handled W S

abbrev pub payload_of : Option Payload → Payload
payload_of none = []
payload_of (some payload) = payload

module _ {W S : Type 0} (services : Services W S) (builtins : Builtins) (scores : Scores S)
    (now : ℕ) (fresh : Text) where
  -- The store that is committed: the tables that the runner left, and the job with its end.
  abbrev pub committed : JobQueue → Ended S → Store S → Tables → Store S
  committed job ended store tables = record store {
    jobs = update_job job.id (finish_job now ended) store.jobs;
    tables = tables;
  }

  -- job.job_type == "provider_eval"
  abbrev pub provider_done : JobQueue → ℕ → Store S → (Try (Ended S) × W) × Tables → Handled W S
  provider_done job eid store ((got ended, w), tables) = done (committed job ended store tables) w
  provider_done job eid store ((threw message, w), tables) =
      broke
        (record {
          message = message;
          train_id = none;
          evaluation_id = some eid;
          submission_id = job.submission_id;
        })
        w

  abbrev pub early : JobQueue → Text → W → Handled W S
  early job message w =
      broke
        (record {
          message = message;
          train_id = none;
          evaluation_id = none;
          submission_id = job.submission_id;
        })
        w

  abbrev pub provider_found : JobQueue → ℕ → Option EvaluationRun → Store S → W → Handled W S
  provider_found job eid none store w =
      early job (codes "evaluation " ++ (job.job_id ++ codes " not found")) w
  provider_found job eid (some evaluation) store w =
      provider_done job evaluation.id store
        (services.evaluate_provider_route evaluation store.tables w)

  abbrev pub provider_job : JobQueue → Try ℕ → Store S → W → Handled W S
  provider_job job (threw message) store w = early job message w
  provider_job job (got eid) store w =
      provider_found job eid
        (first_with (λ (e : EvaluationRun). e.id == eid) store.tables.evaluations) store w

  -- job.job_type == "train"
  abbrev pub source_of : Option Submission → Action W (Option Text)
  source_of none = pure none
  source_of (some submission) =
      if is_github submission
      then (services.fetch_github_pr_source submission >>= λ root. pure (some root))
      else pure none

  abbrev output_path : Artifact → Value
  output_path artifact = elim artifact.meta_checkpoint [
    | none ↦ str artifact.storage_uri
    | some v ↦ if builtins.truthy v then v else str artifact.storage_uri
  ]

  unfoldable pub train_payload : Submission → TrainRun → Artifact → Payload
  train_payload submission train artifact =
      (codes "submission_id", str submission.id)
      ∷ (codes "train_id", int (pos train.id))
      ∷ (codes "input_artifact_id", str artifact.id)
      ∷ (codes "checkpoint_path", output_path artifact)
      ∷ (codes "benchmark_names", list (texts train.benchmark_names_json))
      ∷ (codes "source", str submission.source)
      ∷ []

  -- The evaluation that a finished training run enqueues for its submission.
  abbrev pub enqueued : Option Submission → TrainRun → Ended S → Option Artifact → Store S → Store S
  enqueued (some submission) train ended (some artifact) store =
      if is_completed ended.status
      then record store {
        jobs =
            (enqueue_submission_job now fresh submission (codes "evaluation") (codes "default")
              (pos 0) (some (train_payload submission train artifact)) store.jobs).0;
      }
      else store
  enqueued _ train ended _ store = store

  abbrev submission_id_of : Option Submission → JobQueue → Option Text
  submission_id_of (some submission) job = some submission.id
  submission_id_of none job = job.submission_id

  abbrev pub train_broke : JobQueue → Option Submission → TrainRun → Text → W → Handled W S
  train_broke job submission train message w =
      broke
        (record {
          message = message;
          train_id = some train.id;
          evaluation_id = none;
          submission_id = submission_id_of submission job;
        })
        w

  abbrev pub train_done :
      JobQueue
      → Option Submission
      → TrainRun
      → Store S
      → (Try (Ended S × Option Artifact) × W) × Tables
      → Handled W S
  train_done job submission train store ((got (ended, artifact), w), tables) =
      done (enqueued submission train ended artifact (committed job ended store tables)) w
  train_done job submission train store ((threw message, w), tables) =
      train_broke job submission train message w

  abbrev pub train_sourced :
      JobQueue → Option Submission → TrainRun → Store S → Try (Option Text) × W → Handled W S
  train_sourced job submission train store (got root, w) =
      train_done job submission train store (services.run_train_job train root store.tables w)
  train_sourced job submission train store (threw message, w) =
      train_broke job submission train message w

  abbrev pub submission_with : Option Text → Store S → Option Submission
  submission_with none store = none
  submission_with (some sid) store =
      first_with (λ (s : Submission). text_eq sid s.id) store.tables.submissions

  abbrev pub train_found : JobQueue → Option TrainRun → Store S → W → Handled W S
  train_found job none store w = early job (codes "train " ++ (job.job_id ++ codes " not found")) w
  train_found job (some train) store w =
      let submission = submission_with train.submission_id store in
      train_sourced job submission train store (source_of submission w)

  abbrev pub train_job : JobQueue → Try ℕ → Store S → W → Handled W S
  train_job job (threw message) store w = early job message w
  train_job job (got tid) store w =
      train_found job (first_with (λ (t : TrainRun). t.id == tid) store.tables.trains) store w
