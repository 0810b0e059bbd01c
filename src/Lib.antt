-- ===== src/Lib.antt =====
-- MiniRouter: a coordinator that routes a query through turns of language models, a Conductor
-- whose proposed workflows run over a pool of models, and a validator service that evaluates
-- submissions from a queue of jobs.
--
-- Parts, and the files that model them:
-- - Types: the records of src/trinity/types.py.
-- - Roles/Verifier, Roles/Postprocess and Roles/Prompts: src/trinity/roles/verifier.py
--   (parse_verdict, extract_diagnosis), postprocess.py (postprocess) and prompts.py
--   (build_messages, render_transcript). The session calls all three.
-- - Session: src/trinity/orchestration/session.py. run_trajectory is a loop with max_turns
--   turns to go; take_turn is one round up to the appended record, after_turn the test for
--   termination. Session/Turns states the step relation that the runs follow.
-- - Fugu/Extract and Fugu/Gate: the first half of src/trinity/fugu/workflow.py, from
--   _extract_bracketed_all to _validate_workflow_lists; parse_workflow is the gate that every
--   proposal passes.
-- - Fugu/Execute: its second half, run_workflow and propose_and_run. Fugu/Execute/Loop has one
--   round of the loop (run_step), a self-call (self_step) and the recursion;
--   Fugu/Execute/Rounds and Fugu/Execute/Induction have the induction over the steps, for every
--   invariant of the loop, which Counts uses. Meter and Metered follow the counters of a run
--   beside a log of the calls that the world keeps, which Tokens puts together; Calls follows
--   the number of calls through the runs that raise too.
-- - Fugu/Reward and Fugu/Grpo: src/trinity/fugu/reward.py, and of cost.py and grpo.py the meter
--   (CostMeter.add_run) and the rollouts of one question (collect_group). The grader and the
--   prices are parameters.
-- - Coordinator/Params: src/trinity/coordinator/params.py, the layout of the parameter vector
--   and pack, unpack and initial_theta over abstract elements.
-- - Validator/Queue: validator/src/eval_backend/services/queue.py over the rows of models.py.
--   Validator/Queue has the table, enqueueing and cancelling; Validator/Queue/Jobs has the
--   three kinds of jobs and the pipeline.
-- - Validator/Claim and Validator/Worker: process_once in validator/src/eval_backend/worker.py.
--   Validator/Claim is the choice of the next job, which Validator/Claim/Next describes without
--   the tests of the code; Validator/Worker has the rows and services that a round uses,
--   Validator/Worker/Jobs and Validator/Worker/Evaluation the three kinds of jobs, and
--   Validator/Worker/Run the handler of their failures and the whole round. A round works on
--   the tables of the session and on those that were last committed, which a rollback goes back
--   to.
-- - Graders: src/trinity/orchestration/reward.py. Graders/Choice, Graders/Boxed, Graders/Number
--   and Graders/Json extract an answer from a text, each regular expression written out as a
--   matcher; Graders/Answers has has_answer and the text of a trajectory that is scored, and
--   shows that Fugu/Reward chooses the same; Graders/Sandbox is the grader of code, over a
--   child process that is a service over a world, like the model pool; Graders/Bfcl compares
--   function calls.
-- - Fugu/Grpo/Train: the loop train of grpo.py, with the update of the policy as a service.
-- - Fugu/Eval: evaluate of src/trinity/fugu/eval.py, as a step relation: a step is what one
--   task does between two awaits, in any order of the tasks.
-- - Validator/Runtime: runtime_config.py and review_control.py of the validator's services, on
--   the one row of each table.
-- - Validator/AdminAuth: the tokens of administrators, in admin_auth.py of the validator's
--   services.
-- - EnvFile: src/trinity/envfile.py over an environment that is a list of pairs. The expansion
--   of a value is a parameter that is given the environment of the moment.
-- - Prelude and Py: texts, lists, tests, the character classes and Python values that the parts
--   share.
--
-- How the code is rendered. A text is a list of code points; the character classes beyond ASCII
-- are a parameter (Prelude.Unicode), and nothing is assumed of it. A Python exception is an
-- outcome of its own. The policy, the model pool, the Conductor and the child process of the
-- grader are services: functions that take and return a state of the world outside, so that
-- their answers may depend on all that came before. ast.literal_eval is a parameter, which is
-- none where the code catches its exceptions.
--
-- Bounds and recursion. Two searches take fuel: boxed_contents of Graders/Boxed, which has more
-- of it than the text has characters and takes one away for each part of the text that it
-- passes (Graders/Boxed/Bounds), and code_blocks of Graders/Sandbox/Spec, which has as much as
-- the text has characters, and thousands of Graders/Number likewise; each step passes at least
-- one character. Nothing else takes fuel: the loop of the session recurses on the turns that
-- are left, that of a workflow on its steps, and run_workflow on the levels of recursion left,
-- max_depth - depth. A request timeout counts milliseconds, and 0 stands for one that is not
-- positive; likewise max_chars. An index that the policy chooses is not negative.
--
-- Not modelled: the rows per model of the cost meter and its price table, and the advantages;
-- of the graders the comparison of mathematical answers (floating-point numbers and sympy), the
-- checks of IFEval and RLPR, and score_text, which dispatches to them; what is printed and the
-- text of error messages; floating-point options, which are only passed on; HTTP, database
-- sessions, torch and numpy code; the web front end.
pub mod Prelude
pub mod Py
pub mod Types
pub mod Roles
pub mod Session
pub mod Fugu
pub mod Coordinator
pub mod Graders
pub mod EnvFile
pub mod Validator
