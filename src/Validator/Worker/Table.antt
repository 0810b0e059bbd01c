-- ===== src/Validator/Worker/Table.antt =====
-- The rows of the table by their primary keys.
use minirouter.Prelude.{
  ℕ, ◌≡◌, refl, ◌∙◌, ap, true, false, Option, some, List, [], ◌∷◌, ◌++◌, arith, inl, inr, Text,
  codes, text_eq, get_elem?, Bool-cases, Option-cases,
}
use minirouter.Validator.Queue.{
  JobQueue, has_key, find_key, update_key, enqueue, Request, reset, new_job, dedupe_key_of,
}
use minirouter.Validator.Worker.{find_job, update_job}

-- A well-formed table: a row's id finds that row, and its key is made of its type and its object.
pub record IsTable (jobs : List JobQueue) : Type 0 where
  pub primary :
      (i : ℕ) (job : JobQueue) → get_elem? jobs i ≡ some job → find_job job.id jobs ≡ some job
  pub keyed :
      (i : ℕ) (job : JobQueue)
      → get_elem? jobs i ≡ some job
      → job.dedupe_key ≡ some (job.job_type ++ (codes ":" ++ job.job_id))

pub find_job-update_job :
    (id : Text) (f : JobQueue → JobQueue) (jobs : List JobQueue) {job : JobQueue}
    → ((j : JobQueue) → (f j).id ≡ j.id)
    → find_job id jobs ≡ some job
    → find_job id (update_job id f jobs) ≡ some (f job)
unfolding find_job update_job
find_job-update_job id f [] keeps h = cc
find_job-update_job id f (j ∷ jobs) keeps h = elim (Bool-cases (text_eq id j.id)) [
  | inl e ↦
      let e' : text_eq id (f j).id ≡ true = ap (text_eq id) (keeps j) ∙ e in
      let h' = rw e at h in rw (e, e') (cc)
  | inr e ↦ rw (e, e) (find_job-update_job id f jobs keeps (rw e at h))
]

pub find_job-append :
    (id : Text) (jobs later : List JobQueue) {job : JobQueue}
    → find_job id jobs ≡ some job
    → find_job id (jobs ++ later) ≡ some job
unfolding find_job
find_job-append id [] later h = cc
find_job-append id (j ∷ jobs) later h = elim (Bool-cases (text_eq id j.id)) [
  | inl e ↦ rw e (rw e at h)
  | inr e ↦ rw e (find_job-append id jobs later (rw e at h))
]

-- An update by another key leaves the row.
find_job-update_key :
    (id key : Text) (f : JobQueue → JobQueue) (jobs : List JobQueue) {job : JobQueue}
    → ((j : JobQueue) → (f j).id ≡ j.id)
    → has_key key job ≡ false
    → find_job id jobs ≡ some job
    → find_job id (update_key key f jobs) ≡ some job
unfolding find_job update_key
find_job-update_key id key f [] keeps away h = cc
find_job-update_key id key f (j ∷ jobs) {job = job} keeps away h =
    elim (Bool-cases (has_key key j)) [
      | inl q ↦ elim (Bool-cases (text_eq id j.id)) [
        | inl e ↦
            let same : j ≡ job = some-injective (rw e at h) in
            absurd (ground (arith, q, ap (has_key key) same, away))
        | inr e ↦
            let e' : text_eq id (f j).id ≡ false = ap (text_eq id) (keeps j) ∙ e in
            rw (q, e') (rw e at h)
      ]
      | inr q ↦ elim (Bool-cases (text_eq id j.id)) [
        | inl e ↦ rw (q, e) (rw e at h)
        | inr e ↦ rw (q, e) (find_job-update_key id key f jobs keeps away (rw e at h))
      ]
    ]
  where
    some-injective : {x y : JobQueue} → Option.some x ≡ some y → x ≡ y
    some-injective p = cc

reset_id : (now : ℕ) (r : Request) (j : JobQueue) → (reset now r j).id ≡ j.id
unfolding reset
reset_id now r j = refl

-- Enqueueing a job of another key leaves the row.
pub find_job-enqueue :
    (id : Text) (now : ℕ) (fresh : Text) (r : Request) (jobs : List JobQueue) {job : JobQueue}
    → has_key (dedupe_key_of r) job ≡ false
    → find_job id jobs ≡ some job
    → find_job id (enqueue now fresh r jobs).0 ≡ some job
unfolding enqueue
find_job-enqueue id now fresh r jobs away h =
    elim (Option-cases (find_key (dedupe_key_of r) jobs)) [
      | inl e ↦ rw e (find_job-append id jobs (new_job now fresh r ∷ []) h)
      | inr (j, e) ↦
          rw e (find_job-update_key id (dedupe_key_of r) (reset now r) jobs (reset_id now r) away h)
    ]
