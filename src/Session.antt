-- ===== src/Session.antt =====
-- src/trinity/orchestration/session.py: one query through up to `max_turns` turns.
-- The policy and the model pool are services: their answers may depend on a state `W` of the world
-- outside, which every call passes on. What is printed on the way is left out.
pub mod Turns
pub mod Runs
pub mod Ending
pub mod Total
pub mod Errors
mod Tests
pub mod Answer
pub mod Transcript
use minirouter.Prelude.{
  ℕ, zero, suc, ◌+◌, ◌%◌, Bool, true, false, not, ◌&&◌, ◌||◌, Option, none, some, List, [], ◌∷◌,
  ◌++◌, map, reverse, Text, codes, join, decimal, text_eq, length, get_or, ltb, if◌then◌else◌,
}
use minirouter.Prelude.Unicode.{Unicode}
use minirouter.Py.{Value, int, pos, str, nothing}
use minirouter.Types.{
  Role, Task, TurnRecord, Trajectory, thinker, worker, verifier, value, is_worker, is_verifier,
  accept, max_turns,
}
use minirouter.Roles.Verifier.{parse_verdict, accept_text}
use minirouter.Roles.Postprocess.{postprocess, default_max_chars}
use minirouter.Roles.Prompts.{Message, build_messages}

-- one round of the loop of `_transcript_text`
unfoldable pub transcript_turn : TurnRecord → Text
transcript_turn t =
    codes "[Turn "
    ++ (decimal t.turn
        ++ (codes " | "
            ++ (value t.role
                ++ (codes " | " ++ (t.agent_name ++ (codes "]\n" ++ t.processed_output))))))

unfoldable pub transcript_text : Task → List TurnRecord → Text
transcript_text task turns =
    join (codes "\n\n") ((codes "QUERY:\n" ++ task.prompt) ∷ map transcript_turn turns)

-- the keyword arguments of a call
abbrev pub Kwargs : Type 0
Kwargs = List (Text × Value)

-- what `inspect.signature(fn).parameters` tells of a callable: nothing, that it takes any keyword,
-- or its parameters
pub data Signature : Type 0 where
  unknown var_keyword : Signature
  parameters : List Text → Signature

abbrev pub contains : Text → List Text → Bool
contains k [] = false
contains k (p ∷ ps) = text_eq k p || contains k ps

-- {k: v for k, v in kwargs.items() if k in params}
unfoldable pub keep_supported : List Text → Kwargs → Kwargs
keep_supported params [] = []
keep_supported params ((k, v) ∷ kwargs) =
    let rest = keep_supported params kwargs in if contains k params then (k, v) ∷ rest else rest

unfoldable pub filter_supported : Signature → Kwargs → Kwargs
unfolding keep_supported
filter_supported unknown kwargs = kwargs
filter_supported var_keyword kwargs = kwargs
filter_supported (parameters params) kwargs = keep_supported params kwargs

-- The arguments of `run_trajectory` that bound and shape the run. `temperature` and `top_p` are
-- floats that are only passed on; a timeout counts milliseconds, and 0 stands for one that is not
-- positive.
pub record Options : Type 0 where
  pub max_turns : ℕ
  pub sample : Bool
  pub max_tokens : ℕ
  pub temperature : Value
  pub top_p : Value
  pub reasoning : Option Text
  pub request_timeout : Option ℕ
  pub verifier_requires_prior_worker : Bool
  pub client : Option Value

pub record ChatResult : Type 0 where
  pub text : Text
  pub prompt_tokens : ℕ
  pub completion_tokens : ℕ

-- how an awaited `pool.chat` ends
pub data Reply : Type 0 where
  answer : ChatResult → Reply
  timed_out : Reply
  raised : Text → Reply

-- `decide` is `none` where the policy raises. The timeout is that of `asyncio.wait_for`.
pub record Services (W : Type 0) : Type 0 where
  pub decide : Text → Bool → W → Option (ℕ × Role) × W
  pub chat_signature : Signature
  pub chat : Option ℕ → Text → List Message → Kwargs → W → Reply × W

-- A run returns a value or raises: the policy's own error, the division by zero of an empty pool,
-- `TrajectoryTimeoutError` or `TrajectoryError` with the turn that failed.
pub data Outcome {ℓ} (A : Type ℓ) : Type ℓ where
  returns : A → Outcome A
  policy_error empty_pool : Outcome A
  trajectory_timeout : ℕ → Outcome A
  trajectory_error : ℕ → Text → Outcome A

abbrev with_client : Option Value → Kwargs → Kwargs
with_client none kwargs = kwargs
with_client (some c) kwargs = kwargs ++ (codes "client", c) ∷ []

abbrev with_reasoning : Option Text → Kwargs → Kwargs
with_reasoning none kwargs = kwargs
with_reasoning (some r) kwargs = kwargs ++ (codes "reasoning", str r) ∷ []

unfoldable pub chat_kwargs : Options → Kwargs
chat_kwargs o = with_reasoning o.reasoning (
    with_client o.client (
      (codes "temperature", o.temperature)
      ∷ (codes "top_p", o.top_p)
      ∷ (codes "max_tokens", int (pos o.max_tokens))
      ∷ []))

-- `request_timeout_s and request_timeout_s > 0`
abbrev active_timeout : Option ℕ → Option ℕ
active_timeout none = none
active_timeout (some t) = if ltb 0 t then some t else none

-- pool_models[agent_idx % len(pool_models)]
unfoldable pub pick_agent : List Text → ℕ → Option Text
pick_agent [] agent_idx = none
pick_agent (m ∷ ms) agent_idx = some (get_or (m ∷ ms) (agent_idx % length (m ∷ ms)) m)

-- the record that a turn appends
unfoldable pub turn_record : Unicode → ℕ → Text → Role → ChatResult → TurnRecord
turn_record u k agent_name role res = record {
  turn = k;
  agent_name = agent_name;
  role = role;
  raw_output = res.text;
  processed_output = postprocess (some res.text) role default_max_chars;
  verdict = if is_verifier role then parse_verdict u res.text else none;
  prompt_tokens = res.prompt_tokens;
  completion_tokens = res.completion_tokens;
}

-- the first output, in the order given, of a role that passes the test
unfoldable pub first_output : (Role → Bool) → List TurnRecord → Option Text
first_output test [] = none
first_output test (t ∷ ts) = if test t.role then some t.processed_output else first_output test ts

abbrev output_or : Option Text → Text → Text
output_or none d = d
output_or (some x) d = x

-- `_final_answer`: the loops over `reversed(traj.turns)`, and `traj.turns[-1]` or the empty text.
unfoldable pub final_answer : List TurnRecord → Text
unfolding first_output
final_answer turns = output_or (first_output is_worker (reverse turns)) (
    output_or (first_output (λ r. not (is_verifier r)) (reverse turns))
      (output_or (first_output (λ r. true) (reverse turns)) []))

-- verdict == "ACCEPT"
abbrev pub says_accept : Option Text → Bool
says_accept none = false
says_accept (some v) = text_eq v accept_text

module _ {W : Type 0} (u : Unicode) (services : Services W) (pool_models : List Text) (o : Options)
    (task : Task) where
  abbrev replied : ℕ → Text → Role → Reply × W → Outcome TurnRecord × W
  replied k agent_name role (answer res, w) = (returns (turn_record u k agent_name role res), w)
  replied k agent_name role (timed_out, w) = (trajectory_timeout k, w)
  replied k agent_name role (raised message, w) = (trajectory_error k message, w)

  abbrev picked : ℕ → List TurnRecord → Role → Option Text → W → Outcome TurnRecord × W
  picked k turns role none w = (empty_pool, w)
  picked k turns role (some agent_name) w = replied k agent_name role (
      services.chat (active_timeout o.request_timeout) agent_name
        (build_messages role task.prompt turns)
        (filter_supported services.chat_signature (chat_kwargs o)) w)

  abbrev decided : ℕ → List TurnRecord → Option (ℕ × Role) × W → Outcome TurnRecord × W
  decided k turns (none, w) = (policy_error, w)
  decided k turns (some (agent_idx, role), w) =
      picked k turns role (pick_agent pool_models agent_idx) w

  -- One turn up to the record that it appends.
  unfoldable pub take_turn : ℕ → List TurnRecord → W → Outcome TurnRecord × W
  unfolding pick_agent turn_record
  take_turn k turns w = decided k turns (services.decide (transcript_text task turns) o.sample w)

  -- The rest of a round, from the appended record to the test for termination; `rest` is what the
  -- loop does from there on.
  abbrev pub after_turn :
      Bool
      → List TurnRecord
      → (Bool → List TurnRecord → W → Outcome (List TurnRecord × Bool) × W)
      → Outcome TurnRecord × W
      → Outcome (List TurnRecord × Bool) × W
  after_turn has_worker_output turns rest (returns t, w) =
      let has_worker = is_worker t.role || has_worker_output in
      let accepted =
        says_accept t.verdict && (has_worker || not o.verifier_requires_prior_worker) in
      if accepted then (returns (turns ++ t ∷ [], true), w) else rest has_worker (turns ++ t ∷ []) w
  after_turn has_worker_output turns rest (policy_error, w) = (policy_error, w)
  after_turn has_worker_output turns rest (empty_pool, w) = (empty_pool, w)
  after_turn has_worker_output turns rest (trajectory_timeout n, w) = (trajectory_timeout n, w)
  after_turn has_worker_output turns rest (trajectory_error n message, w) =
      (trajectory_error n message, w)

  -- The loop, with `left` turns to go; the next one is turn `k`.
  unfoldable pub run_turns :
      ℕ → ℕ → Bool → List TurnRecord → W → Outcome (List TurnRecord × Bool) × W
  run_turns zero k has_worker_output turns w = (returns (turns, false), w)
  run_turns (suc left) k has_worker_output turns w =
      after_turn has_worker_output turns
        (λ has_worker turns' w'. run_turns left (k + 1) has_worker turns' w') (take_turn k turns w)

  abbrev finish : Outcome (List TurnRecord × Bool) × W → Outcome Trajectory × W
  finish (returns (turns, accepted), w) = (
    returns (record {
      task = task;
      turns = turns;
      final_answer = final_answer turns;
      reward = none;
      terminated_by = if accepted then accept else max_turns;
    }),
    w,
  )
  finish (policy_error, w) = (policy_error, w)
  finish (empty_pool, w) = (empty_pool, w)
  finish (trajectory_timeout n, w) = (trajectory_timeout n, w)
  finish (trajectory_error n message, w) = (trajectory_error n message, w)

  unfoldable pub run_trajectory : W → Outcome Trajectory × W
  run_trajectory w = finish (run_turns o.max_turns 1 false [] w)
