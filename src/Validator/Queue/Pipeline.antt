-- ===== src/Validator/Queue/Pipeline.antt =====
-- What the pipeline leaves of a submission.
use minirouter.Prelude.{
  ℕ, ◌≡◌, refl, ◌∙◌, Bool, true, false, not, Option, none, some, List, [], ◌∷◌, ◌++◌, inl, inr, ◌⊎◌,
  arith, Text, codes, text_eq, decimal, Bool-cases,
}
use minirouter.Py.{ℤ}
use minirouter.Validator.Queue.{
  JobQueue, queued, Payload, Request, dedupe_key_of, find_key, enqueue,
}
use minirouter.Validator.Queue.Keys.{
  KeysUnique, text_eq_sound, text_eq_of, text_eq-differs, tests_true,
}
use minirouter.Validator.Queue.Enqueue.{enqueue-KeysUnique, enqueue-IsFresh}
use minirouter.Validator.Queue.Jobs.{
  Submission, TrainRun, Settings, Store, has_no_input, submission_request, train_request,
  enqueue_submission_job, enqueue_train_job, new_train, pipeline_payload, payload_or, benchmarks_or,
  restart, enqueue_submission_pipeline_job,
}

-- The submission is of a pull request, or has an artifact.
abbrev pub HasInput : Submission → Type 0
HasInput submission =
    (submission.source ≡ codes "github_pr")
    ⊎ ((a : Text) × (submission.submission_artifact_id ≡ some a))

-- The table has the job under the key, queued for the submission, due now and held by nobody.
pub record IsQueuedAs (now : ℕ) (key sid : Text) (jobs : List JobQueue) (job : JobQueue)
    : Type 0 where
  pub found : find_key key jobs ≡ some job
  pub status : job.status ≡ queued
  pub owner : job.submission_id ≡ some sid
  pub claimed_by : job.claimed_by ≡ none
  pub attempts : job.attempts ≡ 0
  pub due : job.next_run_at ≡ some now
  pub unique : KeysUnique jobs

-- A queued training run of the submission, on its benchmarks or on that of the settings.
pub record IsTrainOf (train_id : ℕ) (settings : Settings) (submission : Submission) (t : TrainRun)
    : Type 0 where
  pub number : t.id ≡ train_id
  pub owner : t.submission_id ≡ some submission.id
  pub source : t.source ≡ submission.source
  pub benchmarks :
      ((¬ submission.benchmark_names_json ≡ [])
        × (t.benchmark_names_json ≡ submission.benchmark_names_json))
      ⊎ ((submission.benchmark_names_json ≡ [])
          × (t.benchmark_names_json ≡ settings.train_benchmark ∷ []))
  pub warmstart : t.warmstart_artifact_id ≡ none
  pub status : t.status ≡ queued
  pub unfinished : t.finished_at ≡ none

-- The submission starts over with the training run: what it had of evaluations is gone.
pub record IsRestarted (now train_id : ℕ) (before after : Submission) : Type 0 where
  pub same_id : after.id ≡ before.id
  pub same_source : after.source ≡ before.source
  pub same_artifact : after.submission_artifact_id ≡ before.submission_artifact_id
  pub train : after.latest_train_id ≡ some train_id
  pub latest_eval : after.latest_eval_id ≡ none
  pub best_eval : after.best_eval_id ≡ none
  pub score : after.latest_score ≡ none
  pub status : after.status ≡ queued
  pub time : after.updated_at ≡ now

module _ (now train_id : ℕ) (settings : Settings) (store : Store) where
  -- The pipeline trains first: the job is that of a new training run.
  pub record IsTrained (job : JobQueue) (after : Store) : Type 0 where
    pub mode : settings.pipeline_mode ≡ codes "train_eval"
    pub job_row :
        IsQueuedAs now (codes "train:" ++ decimal train_id) store.submission.id after.jobs job
    pub train :
        (t : TrainRun) × (after.trains ≡ store.trains ++ t ∷ [])
        × IsTrainOf train_id settings store.submission t
    pub restarted : IsRestarted now train_id store.submission after.submission

  -- The pipeline only evaluates: the job is that of the submission, and all else stays.
  pub record IsEvaluated (job : JobQueue) (after : Store) : Type 0 where
    pub mode : ¬ settings.pipeline_mode ≡ codes "train_eval"
    pub job_row :
        IsQueuedAs now
          (codes "evaluation:" ++ store.submission.id)
          store.submission.id
          after.jobs
          job
    pub same_trains : after.trains ≡ store.trains
    pub same_submission : after.submission ≡ store.submission

  -- What the pipeline returns and leaves.
  abbrev pub IsPipelined : Option JobQueue × Store → Type 0
  IsPipelined (none, after) = (¬ HasInput store.submission) × (after ≡ store)
  IsPipelined (some job, after) =
      HasInput store.submission × (IsTrained job after ⊎ IsEvaluated job after)

HasInput-has_no_input : (s : Submission) → has_no_input s ≡ true → ¬ HasInput s
HasInput-has_no_input s h (inl e) = ground (arith, h, text_eq_of e)
HasInput-has_no_input s h (inr (a, e)) =
    ground (arith, tests_true (not (text_eq s.source (codes "github_pr"))) _ (rw e at h))

has_no_input-HasInput : (s : Submission) → has_no_input s ≡ false → HasInput s
has_no_input-HasInput s h = elim (Bool-cases (text_eq s.source (codes "github_pr"))) [
  | inl e ↦ inl (text_eq_sound s.source (codes "github_pr") e)
  | inr e ↦ inr (go s.submission_artifact_id (rw e at h))
]
  where
    go :
        (o : Option Text)
        → elim o as (λ x. Bool) [ none ↦ true | some a ↦ false ] ≡ false
        → (a : Text) × (o ≡ some a)
    go none q = absurd (ground arith)
    go (some a) q = (a, refl)

-- The job of a request that belongs to a submission.
enqueue-IsQueuedAs :
    (now : ℕ) (fresh : Text) (r : Request) (jobs : List JobQueue) (sid : Text)
    → r.submission_id ≡ some sid
    → KeysUnique jobs
    → IsQueuedAs now (dedupe_key_of r) sid (enqueue now fresh r jobs).0 (enqueue now fresh r jobs).1
enqueue-IsQueuedAs now fresh r jobs sid e h =
    let (job, found, same, is_fresh) = enqueue-IsFresh now fresh r jobs in
    rw same (record {
      found = found;
      status = is_fresh.status;
      owner = is_fresh.owner ∙ e;
      claimed_by = is_fresh.claimed_by;
      attempts = is_fresh.attempts;
      due = is_fresh.due;
      unique = enqueue-KeysUnique now fresh r jobs h;
    })

new_train-IsTrainOf :
    (train_id : ℕ) (settings : Settings) (submission : Submission)
    → IsTrainOf train_id settings submission (new_train train_id settings submission)
unfolding new_train
new_train-IsTrainOf train_id settings submission = record {
  number = refl;
  owner = refl;
  source = refl;
  benchmarks = go submission.benchmark_names_json;
  warmstart = refl;
  status = refl;
  unfinished = refl;
}
  where
    go :
        (b : List Text)
        → ((¬ b ≡ []) × (benchmarks_or b settings.train_benchmark ≡ b))
          ⊎ ((b ≡ []) × (benchmarks_or b settings.train_benchmark ≡ settings.train_benchmark ∷ []))
    go [] = inr (refl, refl)
    go (x ∷ xs) = inl ((λ p. cc), refl)

restart-IsRestarted :
    (now train_id : ℕ) (s : Submission) → IsRestarted now train_id s (restart now train_id s)
unfolding restart
restart-IsRestarted now train_id s = record {
  same_id = refl;
  same_source = refl;
  same_artifact = refl;
  train = refl;
  latest_eval = refl;
  best_eval = refl;
  score = refl;
  status = refl;
  time = refl;
}

module _ (now : ℕ) (fresh : Text) (train_id : ℕ) (settings : Settings) (queue_name : Text)
    (priority : ℤ) (payload_json : Option Payload) where
  train_job :
      (payload : Option Payload) (submission : Submission) (jobs : List JobQueue)
      → KeysUnique jobs
      → IsQueuedAs now
          (codes "train:" ++ decimal train_id)
          submission.id
          (enqueue_train_job now fresh
            (new_train train_id settings submission)
            queue_name
            priority
            payload
            jobs).0
          (enqueue_train_job now fresh
            (new_train train_id settings submission)
            queue_name
            priority
            payload
            jobs).1
  unfolding enqueue_train_job new_train train_request
  train_job payload submission jobs h =
      enqueue-IsQueuedAs now fresh
        (train_request (new_train train_id settings submission) queue_name priority payload) jobs
        submission.id refl h

  evaluation_job :
      (submission : Submission) (jobs : List JobQueue)
      → KeysUnique jobs
      → IsQueuedAs now
          (codes "evaluation:" ++ submission.id)
          submission.id
          (enqueue_submission_job now fresh submission
            (codes "evaluation")
            queue_name
            priority
            payload_json
            jobs).0
          (enqueue_submission_job now fresh submission
            (codes "evaluation")
            queue_name
            priority
            payload_json
            jobs).1
  unfolding enqueue_submission_job submission_request
  evaluation_job submission jobs h =
      enqueue-IsQueuedAs now fresh
        (submission_request submission (codes "evaluation") queue_name priority payload_json) jobs
        submission.id refl h

  -- On a table with unique keys, the pipeline leaves the store alone and returns nothing just where
  -- the submission is not of a pull request and has no artifact. Any other one gets a queued job,
  -- which the table has under its key; the keys stay unique. Where training comes first, that is
  -- the job of a new queued training run of the submission, which is added behind the others, and
  -- the submission starts over: it names the run and has no evaluation and no score. Where it does
  -- not, that is the evaluation of the submission, and all else stays.
  pub enqueue_submission_pipeline_job-IsPipelined :
      (store : Store)
      → KeysUnique store.jobs
      → IsPipelined now train_id settings store (
          enqueue_submission_pipeline_job now fresh train_id settings queue_name priority
            payload_json store)
  unfolding enqueue_submission_pipeline_job
  enqueue_submission_pipeline_job-IsPipelined store h =
      elim (Bool-cases (has_no_input store.submission)) [
        | inl e ↦ rw e (HasInput-has_no_input store.submission e, refl)
        | inr e ↦ elim (Bool-cases (text_eq settings.pipeline_mode (codes "train_eval"))) [
          | inl q ↦
              rw (e, q)
                (
                  has_no_input-HasInput store.submission e,
                  inl (record {
                    mode = text_eq_sound settings.pipeline_mode (codes "train_eval") q;
                    job_row =
                        train_job
                          (some (
                            payload_or payload_json (
                              pipeline_payload (new_train train_id settings store.submission)
                                store.submission)))
                          store.submission store.jobs h;
                    train = (
                      new_train train_id settings store.submission,
                      refl,
                      new_train-IsTrainOf train_id settings store.submission,
                    );
                    restarted = restart-IsRestarted now train_id store.submission;
                  }),
                )
          | inr q ↦
              rw (e, q)
                (
                  has_no_input-HasInput store.submission e,
                  inr (record {
                    mode = λ p. text_eq-differs settings.pipeline_mode (codes "train_eval") q p;
                    job_row = evaluation_job store.submission store.jobs h;
                    same_trains = refl;
                    same_submission = refl;
                  }),
                )
        ]
      ]
