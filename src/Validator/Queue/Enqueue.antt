-- ===== src/Validator/Queue/Enqueue.antt =====
-- What an enqueued job is, and what stays of the table.
use minirouter.Prelude.{
  ℕ, ◌+◌, ◌≤◌, ◌≡◌, refl, ◌∙◌, false, Option, none, some, List, [], ◌∷◌, ◌++◌, arith, inl, inr, ◌⊎◌,
  Text, text_eq, length, length-append, Bool-cases, Option-cases,
}
use minirouter.Validator.Queue.{
  JobQueue, queued, Request, dedupe_key_of, has_key, same_key, reset, new_job, find_key, enqueue,
}
use minirouter.Validator.Queue.Keys.{
  text_eq_refl, IsFree, KeysUnique, KeepsKey, text_eq_comm, find_key-append,
  find_key-append_nothing, KeysUnique-update_key, find_key-update_key, find_key-update_key-other,
  length-update_key,
}

pub reset-KeepsKey : (now : ℕ) (r : Request) → KeepsKey (reset now r)
unfolding reset
reset-KeepsKey now r job = refl

find_key-new_job :
    (now : ℕ) (fresh : Text) (r : Request)
    → find_key (dedupe_key_of r) (new_job now fresh r ∷ []) ≡ some (new_job now fresh r)
unfolding find_key new_job
find_key-new_job now fresh r = rw (text_eq_refl (dedupe_key_of r))

find_key-new_job-other :
    (k : Text) (now : ℕ) (fresh : Text) (r : Request)
    → text_eq k (dedupe_key_of r) ≡ false
    → find_key k (new_job now fresh r ∷ []) ≡ none
unfolding find_key new_job
find_key-new_job-other k now fresh r h = rw h

IsFree-append :
    (k : Option Text) (jobs : List JobQueue) (job : JobQueue)
    → IsFree k jobs
    → IsFree k (job ∷ [])
    → IsFree k (jobs ++ job ∷ [])
IsFree-append none jobs job h p = tt
IsFree-append (some k) jobs job h p = find_key-append k jobs (job ∷ []) h ∙ p

-- A row in front of one whose key is free has another key.
IsFree-other :
    (k : Option Text) (key : Text) (job : JobQueue)
    → job.dedupe_key ≡ some key
    → same_key (some key) k ≡ false
    → IsFree k (job ∷ [])
unfolding find_key
IsFree-other none key job e h = tt
IsFree-other (some k) key job e h = rw (e, text_eq_comm k key, h)

IsFree-empty : (k : Option Text) → IsFree k []
unfolding find_key
IsFree-empty none = tt
IsFree-empty (some k) = refl

KeysUnique-append :
    (key : Text) (jobs : List JobQueue) (job : JobQueue)
    → job.dedupe_key ≡ some key
    → KeysUnique jobs
    → find_key key jobs ≡ none
    → KeysUnique (jobs ++ job ∷ [])
unfolding find_key
KeysUnique-append key [] job e h f = (IsFree-empty job.dedupe_key, tt)
KeysUnique-append key (j ∷ jobs) job e h f = elim (Bool-cases (has_key key j)) [
  | inl q ↦ absurd (ground arith)
  | inr q ↦ (
    IsFree-append j.dedupe_key jobs job h.0 (IsFree-other j.dedupe_key key job e q),
    KeysUnique-append key jobs job e h.1 (rw q at f),
  )
]

module _ (now : ℕ) (fresh : Text) (r : Request) (jobs : List JobQueue) where
  -- The table's keys stay unique: enqueueing never makes a second row with a key.
  pub enqueue-KeysUnique : KeysUnique jobs → KeysUnique (enqueue now fresh r jobs).0
  unfolding enqueue
  enqueue-KeysUnique h = elim (Option-cases (find_key (dedupe_key_of r) jobs)) [
    | inl e ↦ rw e (
        KeysUnique-append (dedupe_key_of r) jobs (new_job now fresh r) (unfold new_job in refl) h e)
    | inr (job, e) ↦
        rw e (KeysUnique-update_key (dedupe_key_of r) (reset now r) jobs (reset-KeepsKey now r) h)
  ]

  -- The row that is returned is the one that the table has for the key from then on.
  pub find_key-enqueue :
      find_key (dedupe_key_of r) (enqueue now fresh r jobs).0 ≡ some (enqueue now fresh r jobs).1
  unfolding enqueue
  find_key-enqueue = elim (Option-cases (find_key (dedupe_key_of r) jobs)) [
    | inl e ↦
        rw (e, find_key-append (dedupe_key_of r) jobs (new_job now fresh r ∷ []) e)
          (find_key-new_job now fresh r)
    | inr (job, e) ↦
        rw e (find_key-update_key (dedupe_key_of r) (reset now r) jobs (reset-KeepsKey now r) e)
  ]

  -- The jobs of other keys are found as before.
  pub find_key-enqueue-other :
      (k : Text)
      → text_eq k (dedupe_key_of r) ≡ false
      → find_key k (enqueue now fresh r jobs).0 ≡ find_key k jobs
  unfolding enqueue
  find_key-enqueue-other k h = elim (Option-cases (find_key (dedupe_key_of r) jobs)) [
    | inl e ↦ rw (
      e,
      find_key-append_nothing k jobs (new_job now fresh r ∷ [])
          (find_key-new_job-other k now fresh r h),
    )
    | inr (job, e) ↦
        rw e (
          find_key-update_key-other k (dedupe_key_of r) (reset now r) jobs (reset-KeepsKey now r) h)
  ]

  -- Enqueueing adds a row exactly where the table has none with the key.
  pub length-enqueue :
      ((find_key (dedupe_key_of r) jobs ≡ none)
        × (length (enqueue now fresh r jobs).0 ≡ length jobs + 1))
      ⊎ (((job : JobQueue) × (find_key (dedupe_key_of r) jobs ≡ some job))
          × (length (enqueue now fresh r jobs).0 ≡ length jobs))
  unfolding enqueue
  length-enqueue = elim (Option-cases (find_key (dedupe_key_of r) jobs)) [
    | inl e ↦ inl (e, rw e (length-append jobs (new_job now fresh r ∷ [])))
    | inr (job, e) ↦ inr ((job, e), rw e (length-update_key (dedupe_key_of r) (reset now r) jobs))
  ]

-- A job as it leaves an enqueueing: queued, unclaimed, with no attempt made and no error.
pub record IsFresh (now : ℕ) (r : Request) (job : JobQueue) : Type 0 where
  pub status : job.status ≡ queued
  pub payload : job.payload_json ≡ some r.payload
  pub owner : job.submission_id ≡ r.submission_id
  pub claimed_by : job.claimed_by ≡ none
  pub claimed_at : job.claimed_at ≡ none
  pub heartbeat_at : job.heartbeat_at ≡ none
  pub attempts : job.attempts ≡ 0
  pub max_attempts : 3 ≤ job.max_attempts
  pub last_error : job.last_error ≡ none
  pub due : job.next_run_at ≡ some now

reset-IsFresh : (now : ℕ) (r : Request) (job : JobQueue) → IsFresh now r (reset now r job)
unfolding reset
reset-IsFresh now r job = record {
  status = refl;
  payload = refl;
  owner = refl;
  claimed_by = refl;
  claimed_at = refl;
  heartbeat_at = refl;
  attempts = refl;
  max_attempts = ground arith;
  last_error = refl;
  due = refl;
}

new_job-IsFresh : (now : ℕ) (fresh : Text) (r : Request) → IsFresh now r (new_job now fresh r)
unfolding new_job
new_job-IsFresh now fresh r = record {
  status = refl;
  payload = refl;
  owner = refl;
  claimed_by = refl;
  claimed_at = refl;
  heartbeat_at = refl;
  attempts = refl;
  max_attempts = omega arith;
  last_error = refl;
  due = refl;
}

-- Whatever state the row of the key was in before (running, failed, cancelled), the table has a
-- fresh job for the key behind an enqueueing, and it is the one that is returned.
pub enqueue-IsFresh :
    (now : ℕ) (fresh : Text) (r : Request) (jobs : List JobQueue)
    → (job : JobQueue) × (find_key (dedupe_key_of r) (enqueue now fresh r jobs).0 ≡ some job)
      × ((enqueue now fresh r jobs).1 ≡ job)
      × IsFresh now r job
unfolding enqueue
enqueue-IsFresh now fresh r jobs =
    ((enqueue now fresh r jobs).1, find_key-enqueue now fresh r jobs, refl, fresh_row)
  where
    fresh_row : IsFresh now r (enqueue now fresh r jobs).1
    fresh_row = elim (Option-cases (find_key (dedupe_key_of r) jobs)) [
      | inl e ↦ rw e (new_job-IsFresh now fresh r)
      | inr (job, e) ↦ rw e (reset-IsFresh now r job)
    ]
