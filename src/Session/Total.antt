-- ===== src/Session/Total.antt =====
-- When a run returns.
use minirouter.Prelude.{
  ℕ, zero, suc, ◌+◌, ◌≡◌, ◌≢◌, refl, Bool, false, not, ◌&&◌, ◌||◌, Option, none, some, List, [],
  ◌∷◌, ◌++◌, inl, inr, Text, Bool-cases, get_or, length, ◌%◌,
}
use minirouter.Prelude.Unicode.{Unicode}
use minirouter.Types.{Role, Task, TurnRecord, Trajectory, is_worker}
use minirouter.Roles.Prompts.{Message}
use minirouter.Session.{
  Options, Services, ChatResult, Kwargs, Reply, answer, timed_out, raised, Outcome, returns,
  policy_error, empty_pool, trajectory_timeout, trajectory_error, says_accept, pick_agent,
  take_turn, after_turn, run_turns, finish, run_trajectory, decided, picked, replied,
  transcript_text,
}

-- The services answer every call.
pub record Answers {W : Type 0} (services : Services W) : Type 0 where
  pub decides :
      (text : Text) (sample : Bool) (w : W)
      → (d : ℕ × Role) × ((services.decide text sample w).0 ≡ some d)
  pub chats :
      (timeout : Option ℕ) (model : Text) (messages : List Message) (kwargs : Kwargs) (w : W)
      → (res : ChatResult) × ((services.chat timeout model messages kwargs w).0 ≡ answer res)

-- The run did not raise.
abbrev Succeeds {ℓ} : {A : Type ℓ} → Outcome A → Type 0
Succeeds (returns a) = Unit
Succeeds _ = ⊥

returns_of_Succeeds {ℓ} : {A : Type ℓ} (r : Outcome A) → Succeeds r → (a : A) × (r ≡ returns a)
returns_of_Succeeds (returns a) s = (a, refl)
returns_of_Succeeds policy_error s = absurd s
returns_of_Succeeds empty_pool s = absurd s
returns_of_Succeeds (trajectory_timeout n) s = absurd s
returns_of_Succeeds (trajectory_error n m) s = absurd s

pick_agent-some : (ms : List Text) (i : ℕ) → ms ≢ [] → (name : Text) × (pick_agent ms i ≡ some name)
unfolding pick_agent
pick_agent-some [] i n = absurd (n refl)
pick_agent-some (m ∷ ms) i n = (get_or (m ∷ ms) (i % length (m ∷ ms)) m, refl)

module _ {W : Type 0} (u : Unicode) (services : Services W) (pool_models : List Text) (o : Options)
    (task : Task) where
  replied-Succeeds :
      (k : ℕ) (name : Text) (role : Role) (r : Reply × W) {res : ChatResult}
      → r.0 ≡ answer res
      → Succeeds (replied u services pool_models o task k name role r).0
  replied-Succeeds k name role (answer res, w) h = tt
  replied-Succeeds k name role (timed_out, w) h = cc
  replied-Succeeds k name role (raised m, w) h = cc

  module _ (a : Answers services) (n : pool_models ≢ []) where
    picked-Succeeds :
        (k : ℕ) (turns : List TurnRecord) (role : Role) (i : ℕ) (w : W)
        → Succeeds
            (picked u services pool_models o task k turns role (pick_agent pool_models i) w).0
    picked-Succeeds k turns role i w =
        let (name, e) = pick_agent-some pool_models i n in
        rw e (replied-Succeeds k name role _ (a.chats _ name _ _ w).1)

    decided-Succeeds :
        (k : ℕ) (turns : List TurnRecord) (d : Option (ℕ × Role) × W) {x : ℕ × Role}
        → d.0 ≡ some x
        → Succeeds (decided u services pool_models o task k turns d).0
    decided-Succeeds k turns (none, w) h = cc
    decided-Succeeds k turns (some (i, role), w) h = picked-Succeeds k turns role i w

    take_turn-Succeeds :
        (k : ℕ) (turns : List TurnRecord) (w : W)
        → Succeeds (take_turn u services pool_models o task k turns w).0
    unfolding take_turn
    take_turn-Succeeds k turns w =
        decided-Succeeds k turns (services.decide (transcript_text task turns) o.sample w)
          (a.decides (transcript_text task turns) o.sample w).1

    after_turn-Succeeds :
        (hw : Bool) (turns : List TurnRecord)
        (rest : Bool → List TurnRecord → W → Outcome (List TurnRecord × Bool) × W)
        (r : Outcome TurnRecord × W)
        → Succeeds r.0
        → ((hw' : Bool) (turns' : List TurnRecord) (w' : W) → Succeeds (rest hw' turns' w').0)
        → Succeeds (after_turn u services pool_models o task hw turns rest r).0
    after_turn-Succeeds hw turns rest (returns t, w) s next =
        elim (Bool-cases (
          says_accept t.verdict
          && ((is_worker t.role || hw) || not o.verifier_requires_prior_worker))) [
            | inl q ↦ rw q tt
            | inr q ↦ rw q (next (is_worker t.role || hw) (turns ++ t ∷ []) w)
          ]
    after_turn-Succeeds hw turns rest (policy_error, w) s next = absurd s
    after_turn-Succeeds hw turns rest (empty_pool, w) s next = absurd s
    after_turn-Succeeds hw turns rest (trajectory_timeout m, w) s next = absurd s
    after_turn-Succeeds hw turns rest (trajectory_error m e, w) s next = absurd s

    run_turns-Succeeds :
        (left k : ℕ) (hw : Bool) (turns : List TurnRecord) (w : W)
        → Succeeds (run_turns u services pool_models o task left k hw turns w).0
    unfolding run_turns
    run_turns-Succeeds zero k hw turns w = tt
    run_turns-Succeeds (suc left) k hw turns w =
        after_turn-Succeeds hw turns (run_turns u services pool_models o task left (k + 1))
          (take_turn u services pool_models o task k turns w) (take_turn-Succeeds k turns w)
          (run_turns-Succeeds left (k + 1))

  finish-Succeeds :
      (r : Outcome (List TurnRecord × Bool) × W)
      → Succeeds r.0
      → Succeeds (finish u services pool_models o task r).0
  finish-Succeeds (returns x, w) s = tt
  finish-Succeeds (policy_error, w) s = s
  finish-Succeeds (empty_pool, w) s = s
  finish-Succeeds (trajectory_timeout n, w) s = s
  finish-Succeeds (trajectory_error n m, w) s = s

  -- With a pool that is not empty, and services that answer every call, the run returns a
  -- trajectory.
  pub run_trajectory_total :
      (w : W)
      → Answers services
      → pool_models ≢ []
      → (traj : Trajectory) × ((run_trajectory u services pool_models o task w).0 ≡ returns traj)
  unfolding run_trajectory
  run_trajectory_total w a n =
      returns_of_Succeeds (run_trajectory u services pool_models o task w).0 (
        finish-Succeeds (run_turns u services pool_models o task o.max_turns 1 false [] w)
          (run_turns-Succeeds a n o.max_turns 1 false [] w))
