-- ===== src/Validator/Claim.antt =====
-- validator/src/eval_backend/worker.py, the first part of `process_once`: the choice of the next job
-- and its claim. A row that another worker has locked is skipped. The database's order of the ids
-- is a parameter, as are the rows of the submissions, which the statement looks up by id.
pub mod Order
pub mod Choice
pub mod Next
mod Tests
use minirouter.Prelude.{
  ℕ, Bool, true, false, not, ◌&&◌, ◌||◌, Option, none, some, List, [], ◌∷◌, Text, codes, text_eq,
  ltb, if◌then◌else◌,
}
use minirouter.Py.{ℤ, pos, negsuc}
use minirouter.Validator.Queue.{JobQueue, is_queued, running}
use minirouter.Validator.Queue.Jobs.{Submission}

-- exists(Submission.id == JobQueue.submission_id, Submission.source == "github_pr")
unfoldable pub github_pr_exists : List Submission → Text → Bool
github_pr_exists [] sid = false
github_pr_exists (s ∷ submissions) sid =
    (text_eq s.id sid && text_eq s.source (codes "github_pr")) || github_pr_exists submissions sid

-- The review gate: without it, the jobs of pull requests wait.
abbrev passes_review : Bool → List Submission → Option Text → Bool
passes_review enabled submissions none = true
passes_review enabled submissions (some sid) = enabled || not (github_pr_exists submissions sid)

unfoldable pub is_eligible : (JobQueue → Bool) → Bool → List Submission → JobQueue → Bool
unfolding github_pr_exists
is_eligible locked enabled submissions job =
    is_queued job.status
    && (passes_review enabled submissions job.submission_id && not (locked job))

unfoldable pub ltz : ℤ → ℤ → Bool
ltz (pos m) (pos n) = ltb m n
ltz (pos m) (negsuc n) = false
ltz (negsuc m) (pos n) = true
ltz (negsuc m) (negsuc n) = ltb n m

-- `a` by the first order, and where that has neither in front, by the second
abbrev pub lex : Bool → Bool → Bool → Bool
lex before behind later = before || (not behind && later)

-- priority descending, then created_at ascending, then id ascending
unfoldable pub precedes : (Text → Text → Bool) → JobQueue → JobQueue → Bool
unfolding ltz
precedes id_before a b =
    lex (ltz b.priority a.priority) (ltz a.priority b.priority)
      (lex (ltb a.created_at b.created_at) (ltb b.created_at a.created_at) (id_before a.id b.id))

abbrev pub better : (Text → Text → Bool) → JobQueue → Option JobQueue → JobQueue
better id_before job none = job
better id_before job (some best) = if precedes id_before best job then best else job

-- `order_by(...).limit(1)` and `first()` over the eligible rows
unfoldable pub next_job :
    (Text → Text → Bool)
    → (JobQueue → Bool)
    → Bool
    → List Submission
    → List JobQueue
    → Option JobQueue
unfolding is_eligible precedes
next_job id_before locked enabled submissions [] = none
next_job id_before locked enabled submissions (job ∷ jobs) =
    let best = next_job id_before locked enabled submissions jobs in
    if is_eligible locked enabled submissions job then some (better id_before job best) else best

-- the fields that the claim sets
unfoldable pub claim : ℕ → JobQueue → JobQueue
claim now job = record job {
  status = running;
  claimed_by = some (codes "worker");
  claimed_at = some now;
  heartbeat_at = some now;
}
