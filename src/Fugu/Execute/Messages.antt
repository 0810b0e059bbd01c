-- ===== src/Fugu/Execute/Messages.antt =====
-- src/trinity/fugu/workflow.py: what a worker is told.
use minirouter.Prelude.{
  ℕ, ◌+◌, Bool, none, some, List, [], ◌∷◌, ◌++◌, map, Text, codes, text_eq, strip, join, decimal,
  get_elem?, if◌then◌else◌,
}
use minirouter.Prelude.Unicode.{Unicode, lower}
use minirouter.Types.{Task}
use minirouter.Roles.Prompts.{Message}
use minirouter.Session.{contains}
use minirouter.Fugu.Gate.{Access, all, steps}

unfoldable pub is_choice : Text → Bool
is_choice key =
    contains key (codes "mmlu" ∷ codes "gpqa" ∷ codes "gpqa-diamond" ∷ codes "gpqa_diamond" ∷ [])

unfoldable pub is_code : Text → Bool
is_code key =
    contains key (codes "livecodebench" ∷ codes "lcb" ∷ codes "bigcodebench" ∷ codes "bigcode" ∷ [])

unfoldable pub format_hint : Unicode → Text → Text
format_hint u benchmark =
    let key = lower u (strip benchmark) in
    if text_eq key (codes "ifeval")
    then codes
        "Follow every instruction exactly and keep the response compliant with all format constraints."
    else if text_eq key (codes "rlpr")
    then codes
        "Follow the question's expected answer format exactly: use a boxed final answer for math "
      ++ codes "items and a single choice letter for multiple-choice items."
    else if text_eq key (codes "bfcl_simple")
    then codes
        "Return only valid JSON function-call objects with the requested names and arguments."
    else if is_choice key
    then codes "End with the final answer on its own line as: Answer: X  (X is one of A, B, C, D)."
    else if is_code key
    then codes "Provide the complete solution as a single Python code block in triple backticks."
    else codes "End with the final answer on its own line as \\boxed{ANSWER}."

-- `list(enumerate(outputs))`
abbrev enumerate_from : ℕ → List Text → List (ℕ × Text)
enumerate_from j [] = []
enumerate_from j (x ∷ xs) = (j, x) ∷ enumerate_from (j + 1) xs

-- `[(j, outputs[j]) for j in access if 0 <= j < len(outputs)]`
abbrev pick_outputs : List ℕ → List Text → List (ℕ × Text)
pick_outputs [] outputs = []
pick_outputs (j ∷ js) outputs = elim (get_elem? outputs j) [
  | none ↦ pick_outputs js outputs
  | some x ↦ (j, x) ∷ pick_outputs js outputs
]

unfoldable pub chosen : Access → List Text → List (ℕ × Text)
chosen all outputs = enumerate_from 0 outputs
chosen (steps js) outputs = pick_outputs js outputs

abbrev context_part : ℕ × Text → Text
context_part (j, txt) = codes "[Output of step " ++ (decimal j ++ (codes "]\n" ++ txt))

abbrev block_of : List (ℕ × Text) → Text
block_of [] = []
block_of (x ∷ xs) =
    codes "Context from earlier steps:\n"
    ++ (join (codes "\n\n") (map context_part (x ∷ xs)) ++ codes "\n\n")

unfoldable pub context_block : Access → List Text → Text
unfolding chosen
context_block access outputs = block_of (chosen access outputs)

unfoldable pub worker_messages : Unicode → Task → Text → Text → List Message
unfolding format_hint
worker_messages u task subtask context =
    record {
      role = codes "system";
      content =
          codes "You are an expert worker model in a multi-agent system. Carry out the "
          ++ codes "assigned subtask precisely and concisely.";
    }
    ∷ record {
      role = codes "user";
      content =
          codes "Original problem:\n"
          ++ (task.prompt
              ++ (codes "\n\n"
                  ++ (context
                      ++ (codes "Your subtask:\n"
                          ++ (subtask ++ (codes "\n\n" ++ format_hint u task.benchmark))))));
    }
    ∷ []

unfoldable pub subtask_as_task : Task → Text → Text → Task
subtask_as_task task subtask context = record task {
  task_id = task.task_id ++ codes "::self";
  prompt =
      strip (
        task.prompt
        ++ (codes "\n\n" ++ (context ++ (codes "Focus on this subtask:\n" ++ subtask))));
}
