-- ===== src/Validator/Worker/Evaluation.antt =====
-- validator/src/eval_backend/worker.py: the evaluation of a submission in `process_once`.
use minirouter.Prelude.{
  ℕ, Bool, true, false, not, Option, none, some, ◌++◌, Text, codes, text_eq, if◌then◌else◌,
}
use minirouter.Py.{Value, nothing}
use minirouter.Validator.Queue.{JobQueue, Payload, running}
use minirouter.Validator.Queue.Jobs.{Submission}
use minirouter.Validator.Worker.{
  Tables, Store, Try, got, threw, Action, pure, throw, ◌>>=◌, Ended, EvalArgs, Services, Builtins,
  Scores, update_where, get, should_promote_submission, is_github,
}
use minirouter.Validator.Worker.Jobs.{Handled, done, broke, payload_of, committed, early, source_of}

module _ {W S : Type 0} (services : Services W S) (builtins : Builtins) (scores : Scores S)
    (now : ℕ) (fresh : Text) where
  -- an evaluation of a submission
  abbrev announce : Submission → Text → Action W Unit
  announce submission state w =
      (got tt, if is_github submission then services.set_commit_status submission state w else w)

  abbrev payload_text : Option Value → Option Text
  payload_text none = none
  payload_text (some v) = if builtins.truthy v then some (builtins.str_of v) else none

  abbrev found_checkpoint : Option Text → Action W (Option Text)
  found_checkpoint none = pure none
  found_checkpoint (some root) = services.find_submission_checkpoint root

  abbrev checkpoint_of : Option Text → Option Text → Action W (Option Text)
  checkpoint_of (some path) root = pure (some path)
  checkpoint_of none root = found_checkpoint root

  abbrev required : Submission → Option Text → Action W Unit
  required submission none =
      if is_github submission
      then throw (
          codes "submission "
          ++ (submission.id ++ codes " does not have submissions/final_model/best_theta.npy"))
      else pure tt
  required submission (some path) = pure tt

  -- `payload["train_id"]` where it is there and not `None`
  abbrev payload_number : Option Value → Action W (Option ℕ)
  payload_number none w = (got none, w)
  payload_number (some nothing) w = (got none, w)
  payload_number (some v) w = elim (builtins.int_of v) [
    | got n ↦ (got (some n), w)
    | threw message ↦ (threw message, w)
  ]

  unfoldable pub prepare : Submission → Payload → Action W EvalArgs
  prepare submission payload = do
    _ ← announce submission (codes "pending")
    root ← source_of services builtins scores now fresh (some submission)
    checkpoint ← checkpoint_of (payload_text (get (codes "checkpoint_path") payload)) root
    _ ← required submission checkpoint
    train_id ← payload_number (get (codes "train_id") payload)
    pure (record {
      checkpoint_path_override = checkpoint;
      train_id = train_id;
      input_artifact_id = payload_text (get (codes "input_artifact_id") payload);
    })

  abbrev pub evaluation_broke : Submission → Text → W → Handled W S
  evaluation_broke submission message w =
      broke
        (record {
          message = message;
          train_id = none;
          evaluation_id = none;
          submission_id = some submission.id;
        })
        w

  -- `update_king_score` behind a merge that returned
  abbrev pub crowned : Option S → Store S → Bool × W → Handled W S
  crowned score store (false, w) = done store w
  crowned none store (true, w) = done store w
  crowned (some s) store (true, w) = done (record store { king_score = some s }) w

  -- what follows the commit of an evaluation
  abbrev pub published : Submission → Ended S → Store S → W → Handled W S
  published submission ended store w =
      let accepted = should_promote_submission scores ended.score store.king_score in
      let w' = services.publish_submission_result submission ended accepted w in
      if not (is_github submission)
      then done store w
      else if accepted
      then crowned ended.score store (services.merge_pull_request submission w')
      else done store (services.close_pull_request submission w')

  abbrev pub evaluation_done :
      JobQueue → Submission → Store S → (Try (Ended S) × W) × Tables → Handled W S
  evaluation_done job submission store ((got ended, w), tables) =
      published submission ended
        (committed services builtins scores now fresh job ended store tables) w
  evaluation_done job submission store ((threw message, w), tables) =
      evaluation_broke submission message w

  -- submission.status = "running"
  abbrev started : Submission → Tables → Tables
  started submission tables = record tables {
    submissions =
        update_where (λ (s : Submission). text_eq submission.id s.id)
          (λ (s : Submission). record s { status = running }) tables.submissions;
  }

  abbrev pub evaluation_prepared : JobQueue → Submission → Store S → Try EvalArgs × W → Handled W S
  evaluation_prepared job submission store (got args, w) =
      evaluation_done job submission store
        (services.evaluate_submission submission args (started submission store.tables) w)
  evaluation_prepared job submission store (threw message, w) =
      evaluation_broke submission message w

  abbrev or_none : Option Text → Text
  or_none none = codes "None"
  or_none (some s) = s

  abbrev pub evaluation_job : JobQueue → Option Submission → Store S → W → Handled W S
  evaluation_job job none store w =
      early services builtins scores now fresh job
        (codes "submission " ++ (or_none job.submission_id ++ codes " not found")) w
  evaluation_job job (some submission) store w =
      evaluation_prepared job submission store (prepare submission (payload_of job.payload_json) w)
