-- ===== src/Types.antt =====
-- src/trinity/types.py: the records that the roles, the coordination loop and the graders share.
use minirouter.Prelude.{ℕ, ◌+◌, Bool, true, false, Option, List, [], ◌∷◌, Text, codes}
use minirouter.Py.{Value}

pub data Role : Type 0 where
  thinker worker verifier : Role

-- Role.value
abbrev pub value : Role → Text
value thinker = codes "thinker"
value worker = codes "worker"
value verifier = codes "verifier"

-- role == Role.WORKER
abbrev pub is_worker : Role → Bool
is_worker worker = true
is_worker _ = false

-- role == Role.VERIFIER
abbrev pub is_verifier : Role → Bool
is_verifier verifier = true
is_verifier _ = false

pub record Task : Type 0 where
  pub task_id : Text
  pub benchmark : Text
  pub prompt : Text
  pub answer : Value
  pub meta : Value

pub record TurnRecord : Type 0 where
  pub turn : ℕ
  pub agent_name : Text
  pub role : Role
  pub raw_output : Text
  pub processed_output : Text
  pub verdict : Option Text
  pub prompt_tokens : ℕ
  pub completion_tokens : ℕ

-- the values of the field `terminated_by`
pub data Termination : Type 0 where
  accept max_turns : Termination

-- `reward` stays `None` in the loop; the graders set it to 0 or 1.
pub record Trajectory : Type 0 where
  pub task : Task
  pub turns : List TurnRecord
  pub final_answer : Text
  pub reward : Option ℕ
  pub terminated_by : Termination

-- Trajectory.total_completion_tokens
unfoldable pub total_completion_tokens : List TurnRecord → ℕ
total_completion_tokens [] = 0
total_completion_tokens (t ∷ ts) = t.completion_tokens + total_completion_tokens ts
