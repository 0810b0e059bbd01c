-- ===== src/Validator/Worker.antt =====
-- validator/src/eval_backend/worker.py: `process_once`. The runners and the services of GitHub are
-- parameters over a state `W` of the world outside; a call that may raise is an `Action`. The
-- runners write no row of the queue and do not commit, so they are given the other tables only. A
-- store is what is committed: a job that raises leaves the store of the start, for its rollback.
pub mod Jobs
pub mod Evaluation
pub mod Run
pub mod Table
pub mod Settled
pub mod King
mod Tests
use minirouter.Prelude.{
  ℕ, Bool, true, false, not, ◌&&◌, Option, none, some, List, [], ◌∷◌, map, Text, codes, text_eq,
  if◌then◌else◌,
}
use minirouter.Py.{Value, nothing}
use minirouter.Validator.Queue.{
  JobQueue, Status, queued, running, completed, failed, cancelled, Payload,
}
use minirouter.Validator.Queue.Jobs.{Submission, TrainRun, EvaluationRun}

pub record Tables : Type 0 where
  pub submissions : List Submission
  pub trains : List TrainRun
  pub evaluations : List EvaluationRun

-- `king_score` is the column of the runtime configuration's row.
pub record Store (S : Type 0) : Type 0 where
  pub jobs : List JobQueue
  pub tables : Tables
  pub king_score : Option S

-- A value, or an exception with its text.
pub data Try (A : Type 0) : Type 0 where
  got : A → Try A
  threw : Text → Try A

abbrev pub Action : Type 0 → Type 0 → Type 0
Action W A = W → Try A × W

abbrev pub pure : {W A : Type 0} → A → Action W A
pure a w = (got a, w)

abbrev pub throw : {W A : Type 0} → Text → Action W A
throw message w = (threw message, w)

abbrev pub after : {W A B : Type 0} → (A → Action W B) → Try A × W → Try B × W
after f (got a, w) = f a w
after f (threw message, w) = (threw message, w)

infixl 5 ◌>>=◌
abbrev pub ◌>>=◌ : {W A B : Type 0} → Action W A → (A → Action W B) → Action W B
(a >>= f) w = after f (a w)

-- How a run ended, as its row says.
pub record Ended (S : Type 0) : Type 0 where
  pub status : Status
  pub error : Option Text
  pub finished_at : Option ℕ
  pub score : Option S

pub record Artifact : Type 0 where
  pub id : Text
  pub meta_checkpoint : Option Value
  pub storage_uri : Text

pub record EvalArgs : Type 0 where
  pub checkpoint_path_override : Option Text
  pub train_id : Option ℕ
  pub input_artifact_id : Option Text

-- The calls of `set_commit_status`, `publish_submission_result` and `close_pull_request` only move
-- the world, since what they raise is dropped; `merge_pull_request` tells whether it returned.
pub record Services (W S : Type 0) : Type 0 where
  pub evaluate_provider_route : EvaluationRun → Tables → W → (Try (Ended S) × W) × Tables
  pub run_train_job :
      TrainRun → Option Text → Tables → W → (Try (Ended S × Option Artifact) × W) × Tables
  pub evaluate_submission : Submission → EvalArgs → Tables → W → (Try (Ended S) × W) × Tables
  pub fetch_github_pr_source : Submission → Action W Text
  pub find_submission_checkpoint : Text → Action W (Option Text)
  pub set_commit_status : Submission → Text → W → W
  pub publish_submission_result : Submission → Ended S → Bool → W → W
  pub merge_pull_request : Submission → W → Bool × W
  pub close_pull_request : Submission → W → W

-- The built-in conversions that the worker applies to a payload and to an id.
pub record Builtins : Type 0 where
  pub truthy : Value → Bool
  pub str_of : Value → Text
  pub int_of : Value → Try ℕ
  pub int_text : Text → Try ℕ

-- `score >= threshold` and `score > current_king`
pub record Scores (S : Type 0) : Type 0 where
  pub at_least : S → S → Bool
  pub above : S → S → Bool
  pub threshold : S

-- the job's row by its primary key, and an update of it
unfoldable pub find_job : Text → List JobQueue → Option JobQueue
find_job id [] = none
find_job id (job ∷ jobs) = if text_eq id job.id then some job else find_job id jobs

unfoldable pub update_job : Text → (JobQueue → JobQueue) → List JobQueue → List JobQueue
update_job id f [] = []
update_job id f (job ∷ jobs) =
    let rest = update_job id f jobs in if text_eq id job.id then f job ∷ rest else job ∷ rest

-- `session.get` of the other tables
abbrev pub first_with {ℓ} : {A : Type ℓ} → (A → Bool) → List A → Option A
first_with test [] = none
first_with test (x ∷ xs) = if test x then some x else first_with test xs

abbrev pub update_where {ℓ} : {A : Type ℓ} → (A → Bool) → (A → A) → List A → List A
update_where test f = map (λ x. if test x then f x else x)

-- payload.get(key)
abbrev pub get : Text → Payload → Option Value
get key [] = none
get key ((k, v) ∷ payload) = if text_eq k key then some v else get key payload

abbrev pub is_completed : Status → Bool
is_completed completed = true
is_completed _ = false

abbrev pub or_now : Option ℕ → ℕ → ℕ
or_now none now = now
or_now (some t) now = t

-- the fields that a finished run sets on its job
unfoldable pub finish_job : {S : Type 0} → ℕ → Ended S → JobQueue → JobQueue
finish_job now ended job = record job {
  status = if is_completed ended.status then completed else failed;
  last_error = ended.error;
  heartbeat_at = ended.finished_at;
  updated_at = or_now ended.finished_at now;
}

-- should_promote_submission
unfoldable pub should_promote_submission : {S : Type 0} → Scores S → Option S → Option S → Bool
should_promote_submission scores none king = false
should_promote_submission scores (some score) king =
    scores.at_least score scores.threshold
    && scores.above score (elim king [ none ↦ scores.threshold | some k ↦ k ])

abbrev pub is_github : Submission → Bool
is_github submission = text_eq submission.source (codes "github_pr")
