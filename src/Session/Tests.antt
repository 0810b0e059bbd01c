-- ===== src/Session/Tests.antt =====
-- A session of two turns: a Worker's, and a Verifier's that accepts it.
use minirouter.Prelude.{
  ℕ, ◌+◌, ◌≤◌, ◌≡◌, refl, true, false, none, some, List, [], ◌∷◌, Text, codes, text_eq, ◌==◌,
  if◌then◌else◌, lstrip, strip,
}
use minirouter.Prelude.Unicode.{plain, is_word}
use minirouter.Py.{nothing}
use minirouter.Types.{Task, TurnRecord, Trajectory, worker, verifier, accept}
use minirouter.Roles.Verifier.{parse_verdict, find_verdicts, verdict_at}
use minirouter.Roles.Postprocess.{postprocess}
use minirouter.Session.{
  Options, Services, ChatResult, unknown, answer, raised, trajectory_error, returns, run_trajectory,
  run_turns, take_turn, pick_agent, turn_record, final_answer,
}
use minirouter.Session.Turns.{Run}
use minirouter.Session.Runs.{run_trajectory-Run}
use minirouter.Session.Ending.{HasEnded, run_trajectory-HasEnded}
use minirouter.Session.Total.{Answers, run_trajectory_total}
use minirouter.Session.Errors.{error_at, run_trajectory-FailsWithin}

abbrev worker_reply : ChatResult
worker_reply = record { text = codes " 42 "; prompt_tokens = 7; completion_tokens = 2 }

abbrev verifier_reply : ChatResult
verifier_reply = record {
  text = codes "Fine.\nVERDICT: ACCEPT";
  prompt_tokens = 9;
  completion_tokens = 4;
}

-- The state counts the calls of the pool.
abbrev two_calls : Services ℕ
two_calls = record {
  decide = λ text sample w. (some (w, if w == 0 then worker else verifier), w);
  chat_signature = unknown;
  chat = λ timeout model messages kwargs w.
      (answer (if w == 0 then worker_reply else verifier_reply), w + 1);
}

abbrev pool : List Text
pool = codes "glm" ∷ codes "kimi" ∷ []

abbrev options : Options
options = record {
  max_turns = 3;
  sample = false;
  max_tokens = 64;
  temperature = nothing;
  top_p = nothing;
  reasoning = none;
  request_timeout = some 1000;
  verifier_requires_prior_worker = true;
  client = none;
}

abbrev task : Task
task = record {
  task_id = codes "t";
  benchmark = codes "math500";
  prompt = codes "6 * 7?";
  answer = nothing;
  meta = nothing;
}

abbrev turn_1 : TurnRecord
turn_1 = record {
  turn = 1;
  agent_name = codes "glm";
  role = worker;
  raw_output = codes " 42 ";
  processed_output = codes "42";
  verdict = none;
  prompt_tokens = 7;
  completion_tokens = 2;
}

abbrev turn_2 : TurnRecord
turn_2 = record {
  turn = 2;
  agent_name = codes "kimi";
  role = verifier;
  raw_output = codes "Fine.\nVERDICT: ACCEPT";
  processed_output = codes "Fine.\nVERDICT: ACCEPT";
  verdict = some (codes "ACCEPT");
  prompt_tokens = 9;
  completion_tokens = 4;
}

abbrev trajectory : Trajectory
trajectory = record {
  task = task;
  turns = turn_1 ∷ turn_2 ∷ [];
  final_answer = codes "42";
  reward = none;
  terminated_by = accept;
}

two_turns : (run_trajectory plain two_calls pool options task 0).0 ≡ returns trajectory
unfolding run_trajectory run_turns take_turn pick_agent turn_record postprocess parse_verdict
    find_verdicts verdict_at lstrip strip is_word final_answer text_eq
two_turns = refl

run_trajectory-Run_example :
    Run plain pool true [] 3 (turn_1 ∷ turn_2 ∷ []) true
    × (trajectory.final_answer ≡ final_answer (turn_1 ∷ turn_2 ∷ []))
    × (trajectory.task ≡ task)
    × (trajectory.reward ≡ none)
run_trajectory-Run_example = run_trajectory-Run plain two_calls pool options task 0 two_turns

run_trajectory-HasEnded_example : HasEnded true 3 (turn_1 ∷ turn_2 ∷ []) true
run_trajectory-HasEnded_example =
    run_trajectory-HasEnded plain two_calls pool options task 0 two_turns

always-Answers : Answers two_calls
always-Answers = record {
  decides = λ text sample w. ((w, if w == 0 then worker else verifier), refl);
  chats =
      λ timeout model messages kwargs w. ((if w == 0 then worker_reply else verifier_reply), refl);
}

run_trajectory_total_example :
    (traj : Trajectory) × ((run_trajectory plain two_calls pool options task 0).0 ≡ returns traj)
run_trajectory_total_example =
    run_trajectory_total plain two_calls pool options task 0 always-Answers (λ e. cc)

-- The second call raises.
abbrev failing : Services ℕ
failing = record two_calls {
  chat = λ timeout model messages kwargs w.
      (if w == 0 then answer worker_reply else raised (codes "HTTP 500"), w + 1);
}

second_fails :
    (run_trajectory plain failing pool options task 0).0 ≡ trajectory_error 2 (codes "HTTP 500")
unfolding run_trajectory run_turns take_turn pick_agent turn_record postprocess parse_verdict
    find_verdicts verdict_at lstrip strip is_word final_answer text_eq
second_fails = refl

run_trajectory-FailsWithin_example : (1 ≤ 2) × (2 ≤ 3)
run_trajectory-FailsWithin_example =
    run_trajectory-FailsWithin plain failing pool options task 0 (error_at second_fails)
