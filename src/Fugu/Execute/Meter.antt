-- ===== src/Fugu/Execute/Meter.antt =====
-- What the tokens of a run add up to, and how each counter of a run moves with the calls.
use minirouter.Prelude.{
  ℕ, ◌+◌, ◌≡◌, refl, ap, [], ◌∷◌, arith, Text, text_eq, Bool-cases, inl, inr, Option, List, Bool,
  some,
}
use minirouter.Prelude.Unicode.{Unicode}
use minirouter.Py.{Value}
use minirouter.Types.{Task}
use minirouter.Roles.Prompts.{Message}
use minirouter.Session.{Kwargs, ChatResult}
use minirouter.Validator.Queue.Keys.{text_eq_sound}
use minirouter.Fugu.Gate.{WorkflowStep, Workflow}
use minirouter.Fugu.Execute.State.{
  Tokens, WorkflowRun, conductor_key, accum, merge_tokens, Loop, start_loop, Produced, finish_step,
  count_call, count_run,
}
use minirouter.Fugu.Execute.Loop.{
  Proposal, Services, Settings, run_of, with_conductor, rejected_run,
}

-- The world logs the calls that are answered, the latest in front: a worker's under its name and
-- the Conductor's under its key, with the tokens of the answer.
pub record Logs {W : Type 0} (services : Services W) (log : W → Tokens) : Type 0 where
  pub chats :
      (name : Text) (messages : List Message) (kwargs : Kwargs) (w : W) {res : ChatResult} {w' : W}
      → services.chat name messages kwargs w ≡ (some res, w')
      → log w' ≡ (name, res.prompt_tokens, res.completion_tokens) ∷ log w
  pub proposes :
      (task : Task) (names : List Text) (sample : Bool) (w : W) {prop : Proposal} {w' : W}
      → services.propose task names sample w ≡ (some prop, w')
      → log w' ≡ (conductor_key, prop.prompt_tokens, prop.completion_tokens) ∷ log w

abbrev pub Cost : Type 0
Cost = Text → ℕ → ℕ → ℕ

abbrev pub weigh : Cost → Tokens → ℕ
weigh cost [] = 0
weigh cost ((n, p, c) ∷ ts) = cost n p c + weigh cost ts

-- The costs of two calls of a model are that of both together.
abbrev pub IsAdditive : Cost → Type 0
IsAdditive cost = (n : Text) (p c p' c' : ℕ) → cost n (p + p') (c + c') ≡ cost n p c + cost n p' c'

weigh-accum :
    (cost : Cost) (ts : Tokens) (name : Text) (pt ct : ℕ)
    → IsAdditive cost
    → weigh cost (accum ts name pt ct) ≡ weigh cost ts + cost name pt ct
unfolding accum
weigh-accum cost [] name pt ct add = omega arith
weigh-accum cost ((n, p, c) ∷ ts) name pt ct add = elim (Bool-cases (text_eq n name)) [
  | inl e ↦
      let same : cost n pt ct ≡ cost name pt ct = ap (λ x. cost x pt ct) (text_eq_sound n name e) in
      rw e (omega (arith, add n p c pt ct, same))
  | inr e ↦ rw e (omega (arith, weigh-accum cost ts name pt ct add))
]

weigh-merge_tokens :
    (cost : Cost) (dst src : Tokens)
    → IsAdditive cost
    → weigh cost (merge_tokens dst src) ≡ weigh cost dst + weigh cost src
unfolding merge_tokens
weigh-merge_tokens cost dst [] add = omega arith
weigh-merge_tokens cost dst ((name, p, c) ∷ src) add =
    omega (
      arith,
      weigh-merge_tokens cost (accum dst name p c) src add,
      weigh-accum cost dst name p c add,
    )

module _ {W : Type 0} (u : Unicode) (literal_eval : Text → Option Value) (services : Services W)
    (pool_models : List Text) (g : Settings) where
  -- A counter of the loop and of the run that moves by the cost of each call.
  pub record IsView (cost : Cost) (of_loop : Loop → ℕ) (of_run : WorkflowRun → ℕ) : Type 0 where
    pub start : of_loop start_loop ≡ 0
    pub call :
        (name : Text) (pt ct : ℕ) (l : Loop)
        → of_loop (count_call name pt ct l) ≡ of_loop l + cost name pt ct
    pub sub_run :
        (sub : WorkflowRun) (l : Loop) → of_loop (count_run sub l) ≡ of_loop l + of_run sub
    pub step :
        (i : ℕ) (st : WorkflowStep) (p : Produced) (l : Loop)
        → of_loop (finish_step i st p l) ≡ of_loop l
    pub ended :
        (wf : Workflow) (l : Loop)
        → of_run (run_of u literal_eval services pool_models g wf l) ≡ of_loop l
    pub added :
        (prop : Proposal) (run : WorkflowRun)
        → of_run (with_conductor prop run)
          ≡ of_run run + cost conductor_key prop.prompt_tokens prop.completion_tokens
    pub rejected :
        (prop : Proposal)
        → of_run (rejected_run u literal_eval services pool_models g prop)
          ≡ cost conductor_key prop.prompt_tokens prop.completion_tokens

  pub calls-IsView : IsView (λ n p c. 1) (λ l. l.n_calls) (λ run. run.n_llm_calls)
  unfolding count_call count_run finish_step
  calls-IsView = record {
    start = refl;
    call = λ name pt ct l. refl;
    sub_run = λ sub l. refl;
    step = λ i st p l. refl;
    ended = λ wf l. refl;
    added = λ prop run. refl;
    rejected = λ prop. refl;
  }

  pub prompts-IsView : IsView (λ n p c. p) (λ l. l.ptoks) (λ run. run.prompt_tokens)
  unfolding count_call count_run finish_step
  prompts-IsView = record {
    start = refl;
    call = λ name pt ct l. refl;
    sub_run = λ sub l. refl;
    step = λ i st p l. refl;
    ended = λ wf l. refl;
    added = λ prop run. refl;
    rejected = λ prop. refl;
  }

  pub completions-IsView : IsView (λ n p c. c) (λ l. l.ctoks) (λ run. run.completion_tokens)
  unfolding count_call count_run finish_step
  completions-IsView = record {
    start = refl;
    call = λ name pt ct l. refl;
    sub_run = λ sub l. refl;
    step = λ i st p l. refl;
    ended = λ wf l. refl;
    added = λ prop run. refl;
    rejected = λ prop. refl;
  }

  -- Any additive cost of the tokens per model.
  pub models-IsView :
      (cost : Cost)
      → IsAdditive cost
      → IsView cost (λ l. weigh cost l.model_tokens) (λ run. weigh cost run.model_tokens)
  unfolding count_call count_run finish_step
  models-IsView cost add = record {
    start = refl;
    call = λ name pt ct l. weigh-accum cost l.model_tokens name pt ct add;
    sub_run = λ sub l. weigh-merge_tokens cost l.model_tokens sub.model_tokens add;
    step = λ i st p l. refl;
    ended = λ wf l. refl;
    added = λ prop run.
        weigh-accum cost run.model_tokens conductor_key prop.prompt_tokens prop.completion_tokens
          add;
    rejected = λ prop. omega arith;
  }
