-- ===== src/Validator/Queue.antt =====
-- validator/src/eval_backend/services/queue.py, with the row type `JobQueue` of models.py: the
-- table of jobs, and how jobs are enqueued and cancelled. The table is the list of its rows. The
-- clock and the fresh identifiers are arguments of the operations that read them: `now` for
-- `_utcnow()`, read once per operation, and `fresh` for `str(uuid4())`. A payload is the JSON object's items.
pub mod Keys
pub mod Enqueue
pub mod Cancel
pub mod Jobs
pub mod Pipeline
mod Tests
use minirouter.Prelude.{
  ℕ, ◌+◌, Bool, true, false, not, ◌&&◌, ◌||◌, Option, none, some, List, [], ◌∷◌, ◌++◌, Text, codes,
  text_eq, decimal, ltb, if◌then◌else◌,
}
use minirouter.Py.{ℤ, Value}

pub data Status : Type 0 where
  queued running completed failed cancelled : Status

abbrev pub is_queued : Status → Bool
is_queued queued = true
is_queued _ = false

abbrev pub Payload : Type 0
Payload = List (Text × Value)

pub record JobQueue : Type 0 where
  pub id : Text
  pub job_type : Text
  pub job_id : Text
  pub submission_id : Option Text
  pub queue_name : Text
  pub status : Status
  pub priority : ℤ
  pub dedupe_key : Option Text
  pub claimed_by : Option Text
  pub claimed_at : Option ℕ
  pub heartbeat_at : Option ℕ
  pub attempts : ℕ
  pub max_attempts : ℕ
  pub next_run_at : Option ℕ
  pub last_error : Option Text
  pub payload_json : Option Payload
  pub created_at : ℕ
  pub updated_at : ℕ

abbrev pub same_key : Option Text → Option Text → Bool
same_key none _ = false
same_key _ none = false
same_key (some a) (some b) = text_eq a b

-- `JobQueue.dedupe_key == dedupe_key` in SQL: a row without a key is not selected
abbrev pub has_key : Text → JobQueue → Bool
has_key key job = same_key (some key) job.dedupe_key

-- What the three `enqueue_*_job` functions are given, the job's own fields worked out.
pub record Request : Type 0 where
  pub job_type : Text
  pub job_id : Text
  pub submission_id : Option Text
  pub queue_name : Text
  pub priority : ℤ
  pub payload : Payload

abbrev pub dedupe_key_of : Request → Text
dedupe_key_of r = r.job_type ++ (codes ":" ++ r.job_id)

-- max(existing.max_attempts, 3)
abbrev at_least_three : ℕ → ℕ
at_least_three n = if ltb n 3 then 3 else n

-- the branch for an existing row
unfoldable pub reset : ℕ → Request → JobQueue → JobQueue
reset now r existing = record existing {
  job_id = r.job_id;
  submission_id = r.submission_id;
  queue_name = r.queue_name;
  status = queued;
  priority = r.priority;
  claimed_by = none;
  claimed_at = none;
  heartbeat_at = none;
  attempts = 0;
  max_attempts = at_least_three existing.max_attempts;
  next_run_at = some now;
  last_error = none;
  payload_json = some r.payload;
  updated_at = now;
}

-- the row of a new job
unfoldable pub new_job : ℕ → Text → Request → JobQueue
new_job now fresh r = record {
  id = fresh;
  job_type = r.job_type;
  job_id = r.job_id;
  submission_id = r.submission_id;
  queue_name = r.queue_name;
  status = queued;
  priority = r.priority;
  dedupe_key = some (dedupe_key_of r);
  claimed_by = none;
  claimed_at = none;
  heartbeat_at = none;
  attempts = 0;
  max_attempts = 3;
  next_run_at = some now;
  last_error = none;
  payload_json = some r.payload;
  created_at = now;
  updated_at = now;
}

-- the statement that looks for the row, on a table whose keys are unique
unfoldable pub find_key : Text → List JobQueue → Option JobQueue
find_key key [] = none
find_key key (job ∷ jobs) = if has_key key job then some job else find_key key jobs

unfoldable pub update_key : Text → (JobQueue → JobQueue) → List JobQueue → List JobQueue
update_key key f [] = []
update_key key f (job ∷ jobs) =
    let rest = update_key key f jobs in if has_key key job then f job ∷ jobs else job ∷ rest

-- the common part of the three functions: the table behind them, and the row that they return
abbrev settled : ℕ → Text → Request → List JobQueue → Option JobQueue → List JobQueue × JobQueue
settled now fresh r jobs (some existing) =
    (update_key (dedupe_key_of r) (reset now r) jobs, reset now r existing)
settled now fresh r jobs none = (jobs ++ new_job now fresh r ∷ [], new_job now fresh r)

unfoldable pub enqueue : ℕ → Text → Request → List JobQueue → List JobQueue × JobQueue
unfolding find_key update_key reset new_job
enqueue now fresh r jobs = settled now fresh r jobs (find_key (dedupe_key_of r) jobs)

-- `cancel_submission_jobs`: the rows of the submission that are still queued
abbrev pub of_submission : Text → JobQueue → Bool
of_submission sid job = same_key (some sid) job.submission_id && is_queued job.status

unfoldable pub cancel : ℕ → Text → JobQueue → JobQueue
cancel now reason job = record job {
  status = cancelled;
  claimed_by = none;
  claimed_at = none;
  heartbeat_at = none;
  last_error = some reason;
  updated_at = now;
}

-- the table behind it, and the cancelled rows that it returns
unfoldable pub cancel_submission_jobs :
    ℕ → Text → Text → List JobQueue → List JobQueue × List JobQueue
unfolding cancel
cancel_submission_jobs now sid reason [] = ([], [])
cancel_submission_jobs now sid reason (job ∷ jobs) =
    let (rest, done) = cancel_submission_jobs now sid reason jobs in
    if of_submission sid job
    then (cancel now reason job ∷ rest, cancel now reason job ∷ done)
    else (job ∷ rest, done)
