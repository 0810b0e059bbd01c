-- ===== src/Validator/Queue/Cancel.antt =====
-- Which jobs a cancellation changes, and that it keeps the keys unique.
use minirouter.Prelude.{
  ℕ, ◌≡◌, refl, ap, Bool, false, Option, none, some, List, [], ◌∷◌, map, arith, inl, inr, Text,
  Bool-cases, if◌then◌else◌,
}
use minirouter.Validator.Queue.{
  JobQueue, has_key, of_submission, find_key, cancel, cancel_submission_jobs,
}
use minirouter.Validator.Queue.Keys.{IsFree, KeysUnique}

abbrev pub keep {ℓ} : {A : Type ℓ} → (A → Bool) → List A → List A
keep test [] = []
keep test (x ∷ xs) = let rest = keep test xs in if test x then x ∷ rest else rest

cancel_left :
    (now : ℕ) (reason sid : Text) (job : JobQueue)
    → of_submission sid (cancel now reason job) ≡ false
unfolding cancel
cancel_left now reason sid job = ground arith

module _ (now : ℕ) (sid reason : Text) where
  -- Cancelling a submission's jobs changes its queued rows and no other, returns these, and leaves
  -- the submission no queued row.
  pub cancel_submission_jobs-map :
      (jobs : List JobQueue)
      → ((cancel_submission_jobs now sid reason jobs).0
          ≡ map (λ job. if of_submission sid job then cancel now reason job else job) jobs)
        × ((cancel_submission_jobs now sid reason jobs).1
            ≡ map (cancel now reason) (keep (of_submission sid) jobs))
        × (keep (of_submission sid) (cancel_submission_jobs now sid reason jobs).0 ≡ [])
  unfolding cancel_submission_jobs
  cancel_submission_jobs-map [] = (refl, refl, refl)
  cancel_submission_jobs-map (job ∷ jobs) =
      let (a, b, c) = cancel_submission_jobs-map jobs in
      elim (Bool-cases (of_submission sid job)) [
        | inl e ↦
            rw (e, cancel_left now reason sid job)
              (ap (λ js. cancel now reason job ∷ js) a, ap (λ js. cancel now reason job ∷ js) b, c)
        | inr e ↦ rw (e, e) (ap (λ js. job ∷ js) a, b, c)
      ]

  IsFree-cancel :
      (k : Option Text) (jobs : List JobQueue)
      → IsFree k jobs
      → IsFree k (cancel_submission_jobs now sid reason jobs).0
  unfolding cancel_submission_jobs find_key cancel
  IsFree-cancel none jobs h = tt
  IsFree-cancel (some k) [] h = h
  IsFree-cancel (some k) (job ∷ jobs) h = elim (Bool-cases (has_key k job)) [
    | inl e ↦ absurd (ground arith)
    | inr e ↦
        let rest = IsFree-cancel (some k) jobs (rw e at h) in
        elim (Bool-cases (of_submission sid job)) [
          | inl q ↦ rw (q, e) rest
          | inr q ↦ rw (q, e) rest
        ]
  ]

  -- Cancelling keeps the keys of the table unique.
  pub cancel_submission_jobs-KeysUnique :
      (jobs : List JobQueue)
      → KeysUnique jobs
      → KeysUnique (cancel_submission_jobs now sid reason jobs).0
  unfolding cancel_submission_jobs cancel
  cancel_submission_jobs-KeysUnique [] h = tt
  cancel_submission_jobs-KeysUnique (job ∷ jobs) h =
      let free = IsFree-cancel job.dedupe_key jobs h.0 in
      let rest = cancel_submission_jobs-KeysUnique jobs h.1 in
      elim (Bool-cases (of_submission sid job)) [
        | inl q ↦ rw q (free, rest)
        | inr q ↦ rw q (free, rest)
      ]
