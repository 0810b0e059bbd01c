-- ===== src/Session/Errors.antt =====
-- Where a run fails.
use mathlib.Core.Path.{subst}
use minirouter.Prelude.{
  ℕ, ◌≡◌, zero, suc, ◌+◌, ◌≤◌, Bool, false, not, ◌&&◌, ◌||◌, Option, none, some, List, [], ◌∷◌,
  ◌++◌, arith, inl, inr, Text, Bool-cases,
}
use minirouter.Prelude.Unicode.{Unicode}
use minirouter.Types.{Role, Task, TurnRecord, is_worker}
use minirouter.Session.{
  Options, Services, Reply, answer, timed_out, raised, Outcome, returns, policy_error, empty_pool,
  trajectory_timeout, trajectory_error, says_accept, pick_agent, take_turn, after_turn, run_turns,
  finish, run_trajectory, decided, picked, replied, transcript_text,
}

-- If the run raised an error that names a turn, the turn lies in a range.
abbrev pub FailsWithin {ℓ} : {A : Type ℓ} → ℕ → ℕ → Outcome A → Type 0
FailsWithin lo hi (trajectory_timeout n) = (lo ≤ n) × (n ≤ hi)
FailsWithin lo hi (trajectory_error n m) = (lo ≤ n) × (n ≤ hi)
FailsWithin lo hi _ = Unit

-- The run raised the timeout or the error of a turn.
pub data FailsAt {ℓ} {A : Type ℓ} (n : ℕ) (r : Outcome A) : Type ℓ where
  timeout_at : r ≡ trajectory_timeout n → FailsAt n r
  error_at : {m : Text} → r ≡ trajectory_error n m → FailsAt n r

FailsAt-FailsWithin {ℓ} :
    {A : Type ℓ} {lo hi n : ℕ} (r : Outcome A)
    → FailsWithin lo hi r
    → FailsAt n r
    → (lo ≤ n) × (n ≤ hi)
FailsAt-FailsWithin {lo = lo} {hi = hi} r h (timeout_at e) = subst (FailsWithin lo hi) e h
FailsAt-FailsWithin {lo = lo} {hi = hi} r h (error_at e) = subst (FailsWithin lo hi) e h

module _ {W : Type 0} (u : Unicode) (services : Services W) (pool_models : List Text) (o : Options)
    (task : Task) where
  replied-FailsWithin :
      (lo hi k : ℕ) (name : Text) (role : Role) (r : Reply × W)
      → lo ≤ k
      → k ≤ hi
      → FailsWithin lo hi (replied u services pool_models o task k name role r).0
  replied-FailsWithin lo hi k name role (answer res, w) h l = tt
  replied-FailsWithin lo hi k name role (timed_out, w) h l = (h, l)
  replied-FailsWithin lo hi k name role (raised m, w) h l = (h, l)

  picked-FailsWithin :
      (lo hi k : ℕ) (turns : List TurnRecord) (role : Role) (name : Option Text) (w : W)
      → lo ≤ k
      → k ≤ hi
      → FailsWithin lo hi (picked u services pool_models o task k turns role name w).0
  picked-FailsWithin lo hi k turns role none w h l = tt
  picked-FailsWithin lo hi k turns role (some name) w h l =
      replied-FailsWithin lo hi k name role _ h l

  decided-FailsWithin :
      (lo hi k : ℕ) (turns : List TurnRecord) (d : Option (ℕ × Role) × W)
      → lo ≤ k
      → k ≤ hi
      → FailsWithin lo hi (decided u services pool_models o task k turns d).0
  decided-FailsWithin lo hi k turns (none, w) h l = tt
  decided-FailsWithin lo hi k turns (some (i, role), w) h l =
      picked-FailsWithin lo hi k turns role (pick_agent pool_models i) w h l

  take_turn-FailsWithin :
      (lo hi k : ℕ) (turns : List TurnRecord) (w : W)
      → lo ≤ k
      → k ≤ hi
      → FailsWithin lo hi (take_turn u services pool_models o task k turns w).0
  unfolding take_turn
  take_turn-FailsWithin lo hi k turns w h l =
      decided-FailsWithin lo hi k turns (services.decide (transcript_text task turns) o.sample w) h
        l

  after_turn-FailsWithin :
      (lo hi : ℕ) (hw : Bool) (turns : List TurnRecord)
      (rest : Bool → List TurnRecord → W → Outcome (List TurnRecord × Bool) × W)
      (r : Outcome TurnRecord × W)
      → FailsWithin lo hi r.0
      → ((hw' : Bool) (turns' : List TurnRecord) (w' : W)
          → FailsWithin lo hi (rest hw' turns' w').0)
      → FailsWithin lo hi (after_turn u services pool_models o task hw turns rest r).0
  after_turn-FailsWithin lo hi hw turns rest (returns t, w) s next =
      elim (Bool-cases (
        says_accept t.verdict
        && ((is_worker t.role || hw) || not o.verifier_requires_prior_worker))) [
          | inl q ↦ rw q tt
          | inr q ↦ rw q (next (is_worker t.role || hw) (turns ++ t ∷ []) w)
        ]
  after_turn-FailsWithin lo hi hw turns rest (policy_error, w) s next = tt
  after_turn-FailsWithin lo hi hw turns rest (empty_pool, w) s next = tt
  after_turn-FailsWithin lo hi hw turns rest (trajectory_timeout m, w) s next = s
  after_turn-FailsWithin lo hi hw turns rest (trajectory_error m e, w) s next = s

  run_turns-FailsWithin :
      (lo hi left k : ℕ) (hw : Bool) (turns : List TurnRecord) (w : W)
      → lo ≤ k
      → k + left ≤ hi + 1
      → FailsWithin lo hi (run_turns u services pool_models o task left k hw turns w).0
  unfolding run_turns
  run_turns-FailsWithin lo hi zero k hw turns w h l = tt
  run_turns-FailsWithin lo hi (suc left) k hw turns w h l =
      after_turn-FailsWithin lo hi hw turns (run_turns u services pool_models o task left (k + 1))
        (take_turn u services pool_models o task k turns w)
        (take_turn-FailsWithin lo hi k turns w h (omega arith))
        (λ hw' turns' w'.
          run_turns-FailsWithin lo hi left (k + 1) hw' turns' w' (omega arith) (omega arith))

  finish-FailsWithin :
      (lo hi : ℕ) (r : Outcome (List TurnRecord × Bool) × W)
      → FailsWithin lo hi r.0
      → FailsWithin lo hi (finish u services pool_models o task r).0
  finish-FailsWithin lo hi (returns x, w) s = tt
  finish-FailsWithin lo hi (policy_error, w) s = tt
  finish-FailsWithin lo hi (empty_pool, w) s = tt
  finish-FailsWithin lo hi (trajectory_timeout n, w) s = s
  finish-FailsWithin lo hi (trajectory_error n m, w) s = s

  fails_within :
      (w : W) → FailsWithin 1 o.max_turns (run_trajectory u services pool_models o task w).0
  unfolding run_trajectory
  fails_within w =
      finish-FailsWithin 1 o.max_turns
        (run_turns u services pool_models o task o.max_turns 1 false [] w)
        (run_turns-FailsWithin 1 o.max_turns o.max_turns 1 false [] w (omega arith) (omega arith))

  -- A run that ends with the timeout or the error of a turn names one from 1 to `max_turns`,
  -- whatever the services do.
  pub run_trajectory-FailsWithin :
      (w : W) {n : ℕ}
      → FailsAt n (run_trajectory u services pool_models o task w).0
      → (1 ≤ n) × (n ≤ o.max_turns)
  run_trajectory-FailsWithin w =
      FailsAt-FailsWithin (run_trajectory u services pool_models o task w).0 (fails_within w)
