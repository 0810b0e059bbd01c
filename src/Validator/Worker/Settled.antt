-- ===== src/Validator/Worker/Settled.antt =====
-- A claimed job never stays running.
use minirouter.Prelude.{
  ℕ, ◌≡◌, refl, Bool, true, false, ◌⊎◌, inl, inr, Option, none, some, List, ◌++◌, Text, codes,
  text_eq, Bool-cases, ◌==◌,
}
use minirouter.Py.{pos}
use minirouter.Validator.Queue.{JobQueue, completed, failed, same_key}
use minirouter.Validator.Queue.Keys.{text_eq_sound}
use minirouter.Validator.Queue.Jobs.{
  Submission, TrainRun, EvaluationRun, enqueue_submission_job, submission_request,
}
use minirouter.Validator.Claim.{next_job, claim}
use minirouter.Validator.Claim.Order.{IsOrder}
use minirouter.Validator.Claim.Choice.{next_job-IsBest}
use minirouter.Validator.Worker.{
  Tables, Store, Try, got, threw, Ended, Artifact, EvalArgs, Services, Builtins, Scores, find_job,
  first_with, is_completed, finish_job, should_promote_submission, is_github,
}
use minirouter.Validator.Worker.Jobs.{
  Failure, Handled, done, broke, committed, provider_done, provider_found, provider_job, enqueued,
  train_done, train_sourced, train_payload, train_found, train_job, submission_with,
}
use minirouter.Validator.Worker.Evaluation.{
  crowned, published, evaluation_done, evaluation_prepared, evaluation_job,
}
use minirouter.Validator.Worker.Run.{
  run_job, fail_job, fail_store, settle, claimed, processed, process_once,
}
use minirouter.Validator.Worker.Table.{IsTable, find_job-update_job, find_job-enqueue}

-- The row of the id is there, with its key, and it is completed or failed.
pub record IsSettled (id : Text) (key : Option Text) (jobs : List JobQueue) : Type 0 where
  pub row : JobQueue
  pub found : find_job id jobs ≡ some row
  pub same_dedupe_key : row.dedupe_key ≡ key
  pub settled : (row.status ≡ completed) ⊎ (row.status ≡ failed)

-- A training job's key is no evaluation's.
train_away :
    (type id : Text) (key : Option Text)
    → text_eq type (codes "train") ≡ true
    → key ≡ some (type ++ (codes ":" ++ id))
    → (sid : Text) → same_key (some (codes "evaluation:" ++ sid)) key ≡ false
unfolding text_eq
train_away type id key e k sid = rw (k, text_eq_sound type (codes "train") e)

module _ {W S : Type 0} (services : Services W S) (builtins : Builtins) (scores : Scores S)
    (now : ℕ) (fresh : Text) where
  finish_job-status :
      (ended : Ended S) (job : JobQueue)
      → ((finish_job now ended job).status ≡ completed)
        ⊎ ((finish_job now ended job).status ≡ failed)
  unfolding finish_job
  finish_job-status ended job = elim (Bool-cases (is_completed ended.status)) [
    | inl e ↦ inl (rw e)
    | inr e ↦ inr (rw e)
  ]

  -- the store with the claimed row, which a branch starts from
  module _ (job row : JobQueue) (store : Store S)
      (found : find_job job.id store.jobs ≡ some row) where
    abbrev Settles : Handled W S → Type 0
    Settles (done after w) = IsSettled job.id row.dedupe_key after.jobs
    Settles (broke f w) = Unit

    committed-IsSettled :
        (ended : Ended S) (tables : Tables)
        → IsSettled job.id row.dedupe_key
            (committed services builtins scores now fresh job ended store tables).jobs
    committed-IsSettled ended tables = record {
      row = finish_job now ended row;
      found =
          find_job-update_job job.id (finish_job now ended) store.jobs
            (λ j. unfold finish_job in refl) found;
      same_dedupe_key = unfold finish_job in refl;
      settled = finish_job-status ended row;
    }

    provider_done-Settles :
        (eid : ℕ) (r : (Try (Ended S) × W) × Tables)
        → Settles (provider_done services builtins scores now fresh job eid store r)
    provider_done-Settles eid ((got ended, w), tables) = committed-IsSettled ended tables
    provider_done-Settles eid ((threw message, w), tables) = tt

    provider_job-Settles :
        (t : Try ℕ) (w : W)
        → Settles (provider_job services builtins scores now fresh job t store w)
    provider_job-Settles (threw message) w = tt
    provider_job-Settles (got eid) w =
        go (first_with (λ (e : EvaluationRun). e.id == eid) store.tables.evaluations)
      where
        go :
            (e : Option EvaluationRun)
            → Settles (provider_found services builtins scores now fresh job eid e store w)
        go none = tt
        go (some evaluation) =
            provider_done-Settles evaluation.id
              (services.evaluate_provider_route evaluation store.tables w)

    crowned-Settles :
        (score : Option S) (after : Store S) (r : Bool × W)
        → IsSettled job.id row.dedupe_key after.jobs
        → Settles (crowned services builtins scores now fresh score after r)
    crowned-Settles score after (false, w) h = h
    crowned-Settles none after (true, w) h = h
    crowned-Settles (some s) after (true, w) h = h

    published-Settles :
        (submission : Submission) (ended : Ended S) (after : Store S) (w : W)
        → IsSettled job.id row.dedupe_key after.jobs
        → Settles (published services builtins scores now fresh submission ended after w)
    published-Settles submission ended after w h = elim (Bool-cases (is_github submission)) [
      | inr e ↦ rw e h
      | inl e ↦ elim (Bool-cases (should_promote_submission scores ended.score after.king_score)) [
        | inl q ↦ rw (e, q) (crowned-Settles ended.score after _ h)
        | inr q ↦ rw (e, q) h
      ]
    ]

    evaluation_done-Settles :
        (submission : Submission) (r : (Try (Ended S) × W) × Tables)
        → Settles (evaluation_done services builtins scores now fresh job submission store r)
    evaluation_done-Settles submission ((got ended, w), tables) =
        published-Settles submission ended
          (committed services builtins scores now fresh job ended store tables) w
          (committed-IsSettled ended tables)
    evaluation_done-Settles submission ((threw message, w), tables) = tt

    evaluation_prepared-Settles :
        (submission : Submission) (r : Try EvalArgs × W)
        → Settles (evaluation_prepared services builtins scores now fresh job submission store r)
    evaluation_prepared-Settles submission (got args, w) = evaluation_done-Settles submission _
    evaluation_prepared-Settles submission (threw message, w) = tt

    evaluation_job-Settles :
        (s : Option Submission) (w : W)
        → Settles (evaluation_job services builtins scores now fresh job s store w)
    evaluation_job-Settles none w = tt
    evaluation_job-Settles (some submission) w = evaluation_prepared-Settles submission _

    module _
        (away : (sid : Text)
          → same_key (some (codes "evaluation:" ++ sid)) row.dedupe_key ≡ false) where
      enqueued-IsSettled :
          (submission : Option Submission) (train : TrainRun) (ended : Ended S)
          (artifact : Option Artifact) (after : Store S)
          → IsSettled job.id row.dedupe_key after.jobs
          → IsSettled job.id row.dedupe_key
              (enqueued services builtins scores now fresh submission train ended artifact
                after).jobs
      unfolding enqueue_submission_job submission_request
      enqueued-IsSettled none train ended artifact after h = h
      enqueued-IsSettled (some s) train ended none after h = h
      enqueued-IsSettled (some s) train ended (some artifact) after h =
          elim (Bool-cases (is_completed ended.status)) [
            | inl e ↦ rw e (record {
              row = h.row;
              found =
                  find_job-enqueue job.id now fresh
                    (submission_request s (codes "evaluation") (codes "default") (pos 0)
                      (some (train_payload services builtins scores now fresh s train artifact)))
                    after.jobs (rw h.same_dedupe_key (away s.id)) h.found;
              same_dedupe_key = h.same_dedupe_key;
              settled = h.settled;
            })
            | inr e ↦ rw e h
          ]

      train_done-Settles :
          (submission : Option Submission) (train : TrainRun)
          (r : (Try (Ended S × Option Artifact) × W) × Tables)
          → Settles (train_done services builtins scores now fresh job submission train store r)
      train_done-Settles submission train ((got (ended, artifact), w), tables) =
          enqueued-IsSettled submission train ended artifact
            (committed services builtins scores now fresh job ended store tables)
            (committed-IsSettled ended tables)
      train_done-Settles submission train ((threw message, w), tables) = tt

      train_sourced-Settles :
          (submission : Option Submission) (train : TrainRun) (r : Try (Option Text) × W)
          → Settles (train_sourced services builtins scores now fresh job submission train store r)
      train_sourced-Settles submission train (got root, w) = train_done-Settles submission train _
      train_sourced-Settles submission train (threw message, w) = tt

      train_found-Settles :
          (t : Option TrainRun) (w : W)
          → Settles (train_found services builtins scores now fresh job t store w)
      train_found-Settles none w = tt
      train_found-Settles (some train) w = train_sourced-Settles _ train _

      train_job-Settles :
          (t : Try ℕ) (w : W) → Settles (train_job services builtins scores now fresh job t store w)
      train_job-Settles (threw message) w = tt
      train_job-Settles (got tid) w = train_found-Settles _ w

    run_job-Settles :
        (w : W)
        → row.dedupe_key ≡ some (job.job_type ++ (codes ":" ++ job.job_id))
        → Settles (run_job services builtins scores now fresh job store w)
    unfolding run_job
    run_job-Settles w key = elim (Bool-cases (text_eq job.job_type (codes "provider_eval"))) [
      | inl e ↦ rw e (provider_job-Settles (builtins.int_text job.job_id) w)
      | inr e ↦ elim (Bool-cases (text_eq job.job_type (codes "train"))) [
        | inl q ↦
            rw (e, q)
              (train_job-Settles (train_away job.job_type job.job_id row.dedupe_key q key)
                (builtins.int_text job.job_id) w)
        | inr q ↦
            rw (e, q)
              (evaluation_job-Settles
                (submission_with services builtins scores now fresh job.submission_id store) w)
      ]
    ]

  fail_store-IsSettled :
      (f : Failure) (id : Text) (store : Store S) {row : JobQueue}
      → find_job id store.jobs ≡ some row
      → IsSettled id row.dedupe_key (fail_store services builtins scores now fresh f id store).jobs
  unfolding fail_store
  fail_store-IsSettled f id store {row = row} found = record {
    row = fail_job services builtins scores now fresh f.message row;
    found =
        find_job-update_job id (fail_job services builtins scores now fresh f.message) store.jobs
          (λ j. unfold fail_job in refl) found;
    same_dedupe_key = unfold fail_job in refl;
    settled = inr (unfold fail_job in refl);
  }

  settle-IsSettled :
      (job row row' : JobQueue) (start claimed_store : Store S)
      (found : find_job job.id claimed_store.jobs ≡ some row') (h : Handled W S)
      → find_job job.id start.jobs ≡ some row
      → row'.dedupe_key ≡ row.dedupe_key
      → Settles job row' claimed_store found h
      → ((settle services builtins scores now fresh job.id start h).0 ≡ 1)
        × IsSettled job.id row.dedupe_key
            (settle services builtins scores now fresh job.id start h).1.jobs
  settle-IsSettled job row row' start claimed_store found (done after w) start_found e h =
      (refl, rw e at h)
  settle-IsSettled job row row' start claimed_store found (broke f w) start_found e h =
      (refl, fail_store-IsSettled f job.id start start_found)

  module _ (id_before : Text → Text → Bool) (locked : JobQueue → Bool) (enabled : Bool) where
    processed-IsSettled :
        (job : JobQueue) (store : Store S) (w : W)
        → find_job job.id store.jobs ≡ some job
        → job.dedupe_key ≡ some (job.job_type ++ (codes ":" ++ job.job_id))
        → ((processed services builtins scores now fresh id_before locked enabled
              (some job)
              store
              w).0
            ≡ 1)
          × IsSettled job.id job.dedupe_key
              (processed services builtins scores now fresh id_before locked enabled
                (some job)
                store
                w).1.jobs
    processed-IsSettled job store w found key =
        let start =
          claimed services builtins scores now fresh id_before locked enabled job.id store in
        let found' =
          find_job-update_job job.id (claim now) store.jobs (λ j. unfold claim in refl) found in
        settle-IsSettled job job (claim now job) store start found'
          (run_job services builtins scores now fresh job start w) found (unfold claim in refl)
          (run_job-Settles job (claim now job) start found' w (unfold claim in key))

    -- On a well-formed table, whatever the runners and services do, a round in which a job is chosen
    -- returns 1 and commits that job as completed or failed, under its key: it never stays running
    -- and is never lost.
    pub process_once-IsSettled :
        (store : Store S) (w : W) {job : JobQueue}
        → IsTable store.jobs
        → IsOrder id_before
        → next_job id_before locked enabled store.tables.submissions store.jobs ≡ some job
        → ((process_once services builtins scores now fresh id_before locked enabled store w).0 ≡ 1)
          × IsSettled job.id job.dedupe_key
              (process_once services builtins scores now fresh id_before locked enabled store
                w).1.jobs
    unfolding process_once
    process_once-IsSettled store w {job = job} table order h =
        let (i, at_i) =
          (next_job-IsBest id_before locked enabled store.tables.submissions store.jobs order
            h).listed in
        rw h (processed-IsSettled job store w (table.primary i job at_i) (table.keyed i job at_i))

    -- A round in which no job is chosen returns 0, and leaves the store and the world as they are.
    pub process_once_idle :
        (store : Store S) (w : W)
        → next_job id_before locked enabled store.tables.submissions store.jobs ≡ none
        → process_once services builtins scores now fresh id_before locked enabled store w
          ≡ (0, store, w)
    unfolding process_once
    process_once_idle store w h = rw h
