-- ===== src/Validator/Worker/King.antt =====
-- What a round does to the score that a submission has to beat.
use minirouter.Prelude.{
  ℕ, ◌≡◌, refl, Bool, true, false, ◌⊎◌, inl, inr, Option, none, some, arith, Text, codes, text_eq,
  Bool-cases,
}
use minirouter.Validator.Queue.{JobQueue}
use minirouter.Validator.Queue.Jobs.{Submission, TrainRun, EvaluationRun}
use minirouter.Validator.Worker.{
  Tables, Store, Try, got, threw, Ended, Artifact, EvalArgs, Services, Builtins, Scores,
  is_completed, should_promote_submission, is_github,
}
use minirouter.Validator.Worker.Jobs.{
  Handled, done, broke, committed, provider_done, provider_found, provider_job, enqueued,
  train_done, train_sourced, train_found, train_job, submission_with,
}
use minirouter.Validator.Worker.Evaluation.{
  crowned, published, evaluation_done, evaluation_prepared, evaluation_job,
}
use minirouter.Validator.Worker.Run.{run_job, fail_store, settle, claimed, processed, process_once}

-- The current king's score, or the threshold where there is none yet.
abbrev pub king_or : {S : Type 0} → Scores S → Option S → S
king_or scores none = scores.threshold
king_or scores (some k) = k

-- The score stays, or it is one that reaches the threshold and beats the king's.
abbrev pub KingRises : {S : Type 0} → Scores S → Option S → Option S → Type 0
KingRises {S} scores before after =
    (after ≡ before)
    ⊎ ((s : S) × (after ≡ some s)
        × (scores.at_least s scores.threshold ≡ true)
        × (scores.above s (king_or scores before) ≡ true))

should_promote_submission-above :
    {S : Type 0} (scores : Scores S) (score king : Option S)
    → should_promote_submission scores score king ≡ true
    → (s : S) × (score ≡ some s)
      × (scores.at_least s scores.threshold ≡ true)
      × (scores.above s (king_or scores king) ≡ true)
unfolding should_promote_submission
should_promote_submission-above scores none king h = absurd (ground arith)
should_promote_submission-above scores (some s) none h = (s, refl, ground arith, ground arith)
should_promote_submission-above scores (some s) (some k) h = (s, refl, ground arith, ground arith)

module _ {W S : Type 0} (services : Services W S) (builtins : Builtins) (scores : Scores S)
    (now : ℕ) (fresh : Text) where
  module _ (king : Option S) where
    abbrev Crowns : Handled W S → Type 0
    Crowns (done after w) = KingRises scores king after.king_score
    Crowns (broke f w) = Unit

    module _ (job : JobQueue) (store : Store S) (same : store.king_score ≡ king) where
      provider_done-Crowns :
          (eid : ℕ) (r : (Try (Ended S) × W) × Tables)
          → Crowns (provider_done services builtins scores now fresh job eid store r)
      provider_done-Crowns eid ((got ended, w), tables) = inl same
      provider_done-Crowns eid ((threw message, w), tables) = tt

      provider_found-Crowns :
          (eid : ℕ) (e : Option EvaluationRun) (w : W)
          → Crowns (provider_found services builtins scores now fresh job eid e store w)
      provider_found-Crowns eid none w = tt
      provider_found-Crowns eid (some evaluation) w = provider_done-Crowns evaluation.id _

      provider_job-Crowns :
          (t : Try ℕ) (w : W)
          → Crowns (provider_job services builtins scores now fresh job t store w)
      provider_job-Crowns (threw message) w = tt
      provider_job-Crowns (got eid) w = provider_found-Crowns eid _ w

      enqueued_king :
          (submission : Option Submission) (train : TrainRun) (ended : Ended S)
          (artifact : Option Artifact) (after : Store S)
          → after.king_score ≡ king
          → (enqueued services builtins scores now fresh submission train ended artifact
              after).king_score
            ≡ king
      enqueued_king none train ended artifact after h = h
      enqueued_king (some s) train ended none after h = h
      enqueued_king (some s) train ended (some artifact) after h =
          elim (Bool-cases (is_completed ended.status)) [ inl e ↦ rw e h | inr e ↦ rw e h ]

      train_done-Crowns :
          (submission : Option Submission) (train : TrainRun)
          (r : (Try (Ended S × Option Artifact) × W) × Tables)
          → Crowns (train_done services builtins scores now fresh job submission train store r)
      train_done-Crowns submission train ((got (ended, artifact), w), tables) = inl (
          enqueued_king submission train ended artifact
            (committed services builtins scores now fresh job ended store tables) same)
      train_done-Crowns submission train ((threw message, w), tables) = tt

      train_sourced-Crowns :
          (submission : Option Submission) (train : TrainRun) (r : Try (Option Text) × W)
          → Crowns (train_sourced services builtins scores now fresh job submission train store r)
      train_sourced-Crowns submission train (got root, w) = train_done-Crowns submission train _
      train_sourced-Crowns submission train (threw message, w) = tt

      train_found-Crowns :
          (t : Option TrainRun) (w : W)
          → Crowns (train_found services builtins scores now fresh job t store w)
      train_found-Crowns none w = tt
      train_found-Crowns (some train) w = train_sourced-Crowns _ train _

      train_job-Crowns :
          (t : Try ℕ) (w : W) → Crowns (train_job services builtins scores now fresh job t store w)
      train_job-Crowns (threw message) w = tt
      train_job-Crowns (got tid) w = train_found-Crowns _ w

      crowned-Crowns :
          (score : Option S) (after : Store S) (r : Bool × W)
          → after.king_score ≡ king
          → should_promote_submission scores score after.king_score ≡ true
          → Crowns (crowned services builtins scores now fresh score after r)
      crowned-Crowns score after (false, w) h p = inl h
      crowned-Crowns none after (true, w) h p = inl h
      crowned-Crowns (some s) after (true, w) h p =
          let (t, e, reaches, beats) =
            should_promote_submission-above scores (some s) king (rw h at p) in
          inr (t, e, reaches, beats)

      published-Crowns :
          (submission : Submission) (ended : Ended S) (after : Store S) (w : W)
          → after.king_score ≡ king
          → Crowns (published services builtins scores now fresh submission ended after w)
      published-Crowns submission ended after w h = elim (Bool-cases (is_github submission)) [
        | inr e ↦ rw e (inl h)
        | inl e ↦
            elim (Bool-cases (should_promote_submission scores ended.score after.king_score)) [
              | inl q ↦ rw (e, q) (crowned-Crowns ended.score after _ h q)
              | inr q ↦ rw (e, q) (inl h)
            ]
      ]

      evaluation_done-Crowns :
          (submission : Submission) (r : (Try (Ended S) × W) × Tables)
          → Crowns (evaluation_done services builtins scores now fresh job submission store r)
      evaluation_done-Crowns submission ((got ended, w), tables) =
          published-Crowns submission ended
            (committed services builtins scores now fresh job ended store tables) w same
      evaluation_done-Crowns submission ((threw message, w), tables) = tt

      evaluation_prepared-Crowns :
          (submission : Submission) (r : Try EvalArgs × W)
          → Crowns (evaluation_prepared services builtins scores now fresh job submission store r)
      evaluation_prepared-Crowns submission (got args, w) = evaluation_done-Crowns submission _
      evaluation_prepared-Crowns submission (threw message, w) = tt

      evaluation_job-Crowns :
          (s : Option Submission) (w : W)
          → Crowns (evaluation_job services builtins scores now fresh job s store w)
      evaluation_job-Crowns none w = tt
      evaluation_job-Crowns (some submission) w = evaluation_prepared-Crowns submission _

      run_job-Crowns : (w : W) → Crowns (run_job services builtins scores now fresh job store w)
      unfolding run_job
      run_job-Crowns w = elim (Bool-cases (text_eq job.job_type (codes "provider_eval"))) [
        | inl e ↦ rw e (provider_job-Crowns (builtins.int_text job.job_id) w)
        | inr e ↦ elim (Bool-cases (text_eq job.job_type (codes "train"))) [
          | inl q ↦ rw (e, q) (train_job-Crowns (builtins.int_text job.job_id) w)
          | inr q ↦
              rw (e, q)
                (evaluation_job-Crowns
                  (submission_with services builtins scores now fresh job.submission_id store) w)
        ]
      ]

    settle-Crowns :
        (id : Text) (store : Store S) (h : Handled W S)
        → store.king_score ≡ king
        → Crowns h
        → KingRises scores king (settle services builtins scores now fresh id store h).1.king_score
    unfolding fail_store
    settle-Crowns id store (done after w) same h = h
    settle-Crowns id store (broke f w) same h = inl same

  module _ (id_before : Text → Text → Bool) (locked : JobQueue → Bool) (enabled : Bool) where
    processed-Crowns :
        (o : Option JobQueue) (store : Store S) (w : W)
        → KingRises scores store.king_score
            (processed services builtins scores now fresh id_before locked enabled o store
              w).1.king_score
    processed-Crowns none store w = inl refl
    processed-Crowns (some job) store w =
        let start =
          claimed services builtins scores now fresh id_before locked enabled job.id store in
        settle-Crowns store.king_score job.id store
          (run_job services builtins scores now fresh job start w) refl
          (run_job-Crowns store.king_score job start refl w)

    -- A round leaves the king's score, or sets it to a score that reaches the threshold and is above
    -- the king's (or, with no king, above the threshold).
    pub process_once-KingRises :
        (store : Store S) (w : W)
        → KingRises scores store.king_score
            (process_once services builtins scores now fresh id_before locked enabled store
              w).1.king_score
    unfolding process_once
    process_once-KingRises store w = processed-Crowns _ store w
