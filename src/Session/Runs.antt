-- ===== src/Session/Runs.antt =====
-- The loop follows the relation, and what that means for a returned trajectory.
use mathlib.Core.Path.{subst}
use minirouter.Prelude.{
  ℕ, zero, suc, ◌+◌, ◌≡◌, refl, sym, Bool, true, false, ◌||◌, none, List, [], ◌∷◌, ◌++◌, arith, inl,
  inr, Text, length, length-append, Bool-cases,
}
use minirouter.Prelude.Unicode.{Unicode}
use minirouter.Types.{Task, TurnRecord, Trajectory, Termination, accept, max_turns, is_worker}
use minirouter.Session.{
  Options, Services, Outcome, returns, policy_error, empty_pool, trajectory_timeout,
  trajectory_error, take_turn, run_turns, run_trajectory, finish, final_answer, after_turn,
}
use minirouter.Session.Turns.{
  has_worker, has_worker-append, ends, IsTurn, Run, exhausted, stopped, continued, Makes,
  take_turn-Makes,
}

module _ {W : Type 0} (u : Unicode) (services : Services W) (pool_models : List Text) (o : Options)
    (task : Task) where
  abbrev Follows : List TurnRecord → ℕ → Outcome (List TurnRecord × Bool) → Type 0
  Follows before left (returns (after, accepted)) =
      Run u pool_models o.verifier_requires_prior_worker before left after accepted
  Follows before left _ = Unit

  continue-Follows :
      (left : ℕ) (turns : List TurnRecord) (t : TurnRecord) (r : Outcome (List TurnRecord × Bool))
      → IsTurn u pool_models turns t
      → ends o.verifier_requires_prior_worker turns t ≡ false
      → Follows (turns ++ t ∷ []) left r
      → Follows turns (suc left) r
  continue-Follows left turns t (returns (after, accepted)) made q f = continued t made q f
  continue-Follows left turns t policy_error made q f = tt
  continue-Follows left turns t empty_pool made q f = tt
  continue-Follows left turns t (trajectory_timeout n) made q f = tt
  continue-Follows left turns t (trajectory_error n m) made q f = tt

  after_turn-Follows :
      (left : ℕ) (hw : Bool) (turns : List TurnRecord)
      (rest : Bool → List TurnRecord → W → Outcome (List TurnRecord × Bool) × W)
      (r : Outcome TurnRecord × W)
      → hw ≡ has_worker turns
      → Makes u services pool_models o task turns r.0
      → ((hw' : Bool) (t : TurnRecord) (w' : W)
          → hw' ≡ has_worker (turns ++ t ∷ [])
          → Follows (turns ++ t ∷ []) left (rest hw' (turns ++ t ∷ []) w').0)
      → Follows turns (suc left) (after_turn u services pool_models o task hw turns rest r).0
  after_turn-Follows left hw turns rest (returns t, w) h made next =
      let now : (is_worker t.role || hw) ≡ has_worker (turns ++ t ∷ []) =
        rw h (sym (has_worker-append turns t)) in
      elim (Bool-cases (ends o.verifier_requires_prior_worker turns t)) [
        | inl q ↦ rw (now, q) (stopped t made q refl)
        | inr q ↦
            rw (now, q)
              (continue-Follows left turns t
                (rest (has_worker (turns ++ t ∷ [])) (turns ++ t ∷ []) w).0 made q
                (next (has_worker (turns ++ t ∷ [])) t w refl))
      ]
  after_turn-Follows left hw turns rest (policy_error, w) h made next = tt
  after_turn-Follows left hw turns rest (empty_pool, w) h made next = tt
  after_turn-Follows left hw turns rest (trajectory_timeout n, w) h made next = tt
  after_turn-Follows left hw turns rest (trajectory_error n m, w) h made next = tt

  run_turns-Follows :
      (left k : ℕ) (hw : Bool) (turns : List TurnRecord) (w : W)
      → k ≡ length turns + 1
      → hw ≡ has_worker turns
      → Follows turns left (run_turns u services pool_models o task left k hw turns w).0
  unfolding run_turns
  run_turns-Follows zero k hw turns w e h = exhausted refl
  run_turns-Follows (suc left) k hw turns w e h =
      after_turn-Follows left hw turns (run_turns u services pool_models o task left (k + 1))
        (take_turn u services pool_models o task k turns w) h
        (take_turn-Makes u services pool_models o task k turns w e)
        (λ hw' t w' h'.
          run_turns-Follows left (k + 1) hw' (turns ++ t ∷ []) w'
            (omega (arith, length-append turns (t ∷ []))) h')

abbrev pub is_accept : Termination → Bool
is_accept accept = true
is_accept max_turns = false

module _ {W : Type 0} (u : Unicode) (services : Services W) (pool_models : List Text) (o : Options)
    (task : Task) where
  abbrev TrajectoryFollows : Outcome Trajectory → Type 0
  TrajectoryFollows (returns traj) =
      Run u pool_models o.verifier_requires_prior_worker [] o.max_turns traj.turns
        (is_accept traj.terminated_by)
      × (traj.final_answer ≡ final_answer traj.turns)
      × (traj.task ≡ task)
      × (traj.reward ≡ none)
  TrajectoryFollows _ = Unit

  finish-Follows :
      (r : Outcome (List TurnRecord × Bool) × W)
      → Follows u services pool_models o task [] o.max_turns r.0
      → TrajectoryFollows (finish u services pool_models o task r).0
  finish-Follows (returns (turns, true), w) f = (f, refl, refl, refl)
  finish-Follows (returns (turns, false), w) f = (f, refl, refl, refl)
  finish-Follows (policy_error, w) f = tt
  finish-Follows (empty_pool, w) f = tt
  finish-Follows (trajectory_timeout n, w) f = tt
  finish-Follows (trajectory_error n m, w) f = tt

  -- A trajectory that the run returns was made by the relation `Run` from no turn at all: each turn
  -- is numbered in order, names a model of the pool, carries the post-processed output and, for a
  -- Verifier, the parsed verdict; the run goes on while no turn ends it and turns are left. The
  -- trajectory carries the task and the final answer of its turns, and no reward.
  pub run_trajectory-Run :
      (w : W) {traj : Trajectory}
      → (run_trajectory u services pool_models o task w).0 ≡ returns traj
      → Run u pool_models o.verifier_requires_prior_worker [] o.max_turns traj.turns
          (is_accept traj.terminated_by)
        × (traj.final_answer ≡ final_answer traj.turns)
        × (traj.task ≡ task)
        × (traj.reward ≡ none)
  unfolding run_trajectory
  run_trajectory-Run w h = subst TrajectoryFollows h (
      finish-Follows (run_turns u services pool_models o task o.max_turns 1 false [] w) (
        run_turns-Follows u services pool_models o task o.max_turns 1 false [] w (omega arith)
          refl))
