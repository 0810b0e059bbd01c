-- ===== src/Validator/Worker/Run.antt =====
-- validator/src/eval_backend/worker.py: the dispatch on the type of the job, the handler of a
-- failure, and the whole of `process_once`.
use minirouter.Prelude.{
  ℕ, Bool, false, Option, none, some, Text, codes, text_eq, ◌==◌, if◌then◌else◌,
}
use minirouter.Validator.Queue.{JobQueue, failed}
use minirouter.Validator.Queue.Jobs.{Submission, TrainRun, EvaluationRun}
use minirouter.Validator.Claim.{next_job, claim}
use minirouter.Validator.Worker.{
  Tables, Store, Services, Builtins, Scores, update_job, update_where, finish_job,
  should_promote_submission, is_github,
}
use minirouter.Validator.Worker.Jobs.{
  Failure, Handled, done, broke, submission_with, provider_job, train_job, train_payload,
}
use minirouter.Validator.Worker.Evaluation.{prepare, evaluation_job}

module _ {W S : Type 0} (services : Services W S) (builtins : Builtins) (scores : Scores S)
    (now : ℕ) (fresh : Text) where
  -- The branches of the inner `try`, on the store with the claimed job.
  unfoldable pub run_job : JobQueue → Store S → W → Handled W S
  unfolding prepare finish_job update_job should_promote_submission train_payload
  run_job job store w =
      if text_eq job.job_type (codes "provider_eval")
      then provider_job services builtins scores now fresh job (builtins.int_text job.job_id) store
          w
      else if text_eq job.job_type (codes "train")
      then train_job services builtins scores now fresh job (builtins.int_text job.job_id) store w
      else evaluation_job services builtins scores now fresh job
          (submission_with services builtins scores now fresh job.submission_id store) store w

  -- the rows that the handler marks as failed
  unfoldable pub fail_job : Text → JobQueue → JobQueue
  fail_job message job = record job {
    status = failed;
    last_error = some message;
    heartbeat_at = some now;
    updated_at = now;
  }

  abbrev pub with_id : Option ℕ → ℕ → Bool
  with_id none id = false
  with_id (some n) id = id == n

  abbrev pub with_text : Option Text → Text → Bool
  with_text none id = false
  with_text (some s) id = text_eq s id

  unfoldable pub fail_tables : Failure → Tables → Tables
  fail_tables f tables = record {
    submissions =
        update_where (λ (s : Submission). with_text f.submission_id s.id)
          (λ (s : Submission). record s {
            status = failed;
            updated_at = now;
            finished_at = some now;
          })
          tables.submissions;
    trains =
        update_where (λ (t : TrainRun). with_id f.train_id t.id)
          (λ (t : TrainRun). record t {
            status = failed;
            phase = some (codes "failed");
            message = some f.message;
            error = some f.message;
            finished_at = some now;
          })
          tables.trains;
    evaluations =
        update_where (λ (e : EvaluationRun). with_id f.evaluation_id e.id)
          (λ (e : EvaluationRun). record e {
            status = failed;
            phase = some (codes "failed");
            message = some f.message;
            error = some f.message;
            finished_at = some now;
          })
          tables.evaluations;
  }

  unfoldable pub fail_store : Failure → Text → Store S → Store S
  unfolding fail_tables update_job fail_job
  fail_store f job_id store = record store {
    jobs = update_job job_id (fail_job f.message) store.jobs;
    tables = fail_tables f store.tables;
  }

  abbrev told : Option Submission → W → W
  told none w = w
  told (some submission) w =
      if is_github submission then services.set_commit_status submission (codes "failure") w else w

  -- The exception handler: `store` is the one of the start, as the session is rolled back.
  abbrev pub settle : Text → Store S → Handled W S → ℕ × Store S × W
  settle job_id store (done after w) = (1, after, w)
  settle job_id store (broke f w) =
      let after = fail_store f job_id store in
      (1, after, told (submission_with services builtins scores now fresh f.submission_id after) w)

  module _ (id_before : Text → Text → Bool) (locked : JobQueue → Bool) (enabled : Bool) where
    abbrev pub claimed : Text → Store S → Store S
    claimed id store = record store { jobs = update_job id (claim now) store.jobs }

    abbrev pub processed : Option JobQueue → Store S → W → ℕ × Store S × W
    processed none store w = (0, store, w)
    processed (some job) store w = settle job.id store (run_job job (claimed job.id store) w)

    unfoldable pub process_once : Store S → W → ℕ × Store S × W
    unfolding run_job fail_store claim
    process_once store w =
        processed (next_job id_before locked enabled store.tables.submissions store.jobs) store w
