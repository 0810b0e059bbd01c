-- ===== src/Fugu/Execute/World.antt =====
-- src/trinity/fugu/workflow.py: what a run is given, and how it ends. The pool's `chat` and the
-- Conductor's `propose` are services over a state `W` of the world outside.
use minirouter.Prelude.{ℕ, Bool, Option, none, some, List, [], ◌∷◌, ◌++◌, Text, codes}
use minirouter.Py.{Value, int, pos, str}
use minirouter.Types.{Task}
use minirouter.Roles.Prompts.{Message}
use minirouter.Session.{Kwargs, Signature, ChatResult}

pub record Proposal : Type 0 where
  pub text : Text
  pub prompt_tokens : ℕ
  pub completion_tokens : ℕ

-- `none` is a call that raised. `propose` takes the task, the worker names and `sample`.
pub record Services (W : Type 0) : Type 0 where
  pub chat_signature : Signature
  pub chat : Text → List Message → Kwargs → W → Option ChatResult × W
  pub propose : Task → List Text → Bool → W → Option Proposal × W

pub record Settings : Type 0 where
  pub temperature : Value
  pub max_tokens : ℕ
  pub reasoning : Option Text
  pub client : Option Value

-- A run returns a value, or an exception goes through: of a call of a service, of a name that the
-- pool does not have (`IndexError`), or of the parse-gate (`ValueError`).
pub data Outcome {ℓ} (A : Type ℓ) : Type ℓ where
  returns : A → Outcome A
  call_failed no_model gate_raised : Outcome A

unfoldable pub worker_kwargs : Settings → Kwargs
worker_kwargs g =
    let base =
      (codes "temperature", g.temperature) ∷ (codes "max_tokens", int (pos g.max_tokens)) ∷ [] in
    let with_reasoning : Kwargs = elim g.reasoning [
      | none ↦ base
      | some r ↦ base ++ (codes "reasoning", str r) ∷ []
    ] in
    elim g.client [ none ↦ with_reasoning | some c ↦ with_reasoning ++ (codes "client", c) ∷ [] ]
