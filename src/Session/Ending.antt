-- ===== src/Session/Ending.antt =====
-- How a returned trajectory ended, and how long it is.
use minirouter.Prelude.{
  ℕ, suc, ◌+◌, ◌≤◌, ◌≡◌, refl, ap, Bool, true, false, not, ◌&&◌, ◌||◌, Option, none, List, [], ◌∷◌,
  ◌++◌, arith, Text, length, length-append, if◌then◌else◌,
}
use minirouter.Prelude.Unicode.{Unicode}
use minirouter.Types.{
  Role, Task, TurnRecord, Trajectory, is_worker, is_verifier, verifier, thinker, worker,
}
use minirouter.Roles.Verifier.{parse_verdict}
use minirouter.Session.{Options, Services, returns, run_trajectory, says_accept}
use minirouter.Session.Turns.{
  has_worker, has_worker-append, ends, IsTurn, Run, exhausted, stopped, continued,
}
use minirouter.Session.Runs.{run_trajectory-Run, is_accept}

-- A turn that ends the run is a Verifier's that says ACCEPT; where one is required, a Worker's turn
-- stands in front of it.
pub record IsLast (required : Bool) (before : List TurnRecord) (t : TurnRecord) : Type 0 where
  pub by_verifier : t.role ≡ verifier
  pub says : says_accept t.verdict ≡ true
  pub worked : (has_worker before || not required) ≡ true

-- How a run ends: with all its turns used, or with a turn that ends it.
abbrev pub HasEnded : Bool → ℕ → List TurnRecord → Bool → Type 0
HasEnded required limit turns false = length turns ≡ limit
HasEnded required limit turns true =
    (length turns ≤ limit)
    × ((before : List TurnRecord) × (t : TurnRecord) × (turns ≡ before ++ t ∷ [])
        × IsLast required before t)

says_by_verifier :
    (role : Role) (verdict parsed : Option Text) (worked required : Bool)
    → verdict ≡ (if is_verifier role then parsed else none)
    → (says_accept verdict && ((is_worker role || worked) || not required)) ≡ true
    → (role ≡ verifier) × (says_accept verdict ≡ true) × ((worked || not required) ≡ true)
says_by_verifier thinker verdict parsed worked required e h = absurd (ground arith)
says_by_verifier worker verdict parsed worked required e h = absurd (ground arith)
says_by_verifier verifier verdict parsed worked required e h = (refl, ground arith, ground arith)

module _ (u : Unicode) (pool_models : List Text) (required : Bool) where
  ending :
      {before : List TurnRecord} (t : TurnRecord)
      → IsTurn u pool_models before t
      → ends required before t ≡ true
      → IsLast required before t
  ending {before} t made q =
      let (v, s, w) =
        says_by_verifier t.role t.verdict (parse_verdict u t.raw_output) (has_worker before)
          required made.verdict (rw (has_worker-append before t) at q) in
      record { by_verifier = v; says = s; worked = w }

  pub Run-HasEnded :
      {before after : List TurnRecord} {left : ℕ} {accepted : Bool}
      → Run u pool_models required before left after accepted
      → HasEnded required (length before + left) after accepted
  Run-HasEnded (exhausted e) = let e' = ap (λ (ts : List TurnRecord). length ts) e in omega arith
  Run-HasEnded {before} (stopped t made q e) =
      let e' = ap (λ (ts : List TurnRecord). length ts) e in
      (omega (arith, length-append before (t ∷ [])), (before, t, e, ending t made q))
  Run-HasEnded {before} (continued {left = left} t made q r) =
      let e : length (before ++ t ∷ []) + left ≡ length before + suc left =
        omega (arith, length-append before (t ∷ [])) in
      rw e at (Run-HasEnded r)

module _ {W : Type 0} (u : Unicode) (services : Services W) (pool_models : List Text) (o : Options)
    (task : Task) where
  -- A returned trajectory either says `max_turns` and has exactly that many turns, or says `accept`,
  -- has at most that many, and ends in a Verifier's turn whose verdict is ACCEPT, behind a Worker's
  -- turn if the option asks for one.
  pub run_trajectory-HasEnded :
      (w : W) {traj : Trajectory}
      → (run_trajectory u services pool_models o task w).0 ≡ returns traj
      → HasEnded o.verifier_requires_prior_worker o.max_turns traj.turns
          (is_accept traj.terminated_by)
  run_trajectory-HasEnded w h =
      let run = (run_trajectory-Run u services pool_models o task w h).0 in
      let e : 0 + o.max_turns ≡ o.max_turns = omega arith in
      rw e at (Run-HasEnded u pool_models o.verifier_requires_prior_worker run)
