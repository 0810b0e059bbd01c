-- ===== src/Fugu/Gate/Tests.antt =====
-- Runs of the gate.
use minirouter.Prelude.{
  ◌≡◌, refl, false, Option, none, some, [], ◌∷◌, Text, codes, text_eq, lstrip, strip, if◌then◌else◌,
}
use minirouter.Prelude.Unicode.{plain, is_word, isdigit, int_from, lower}
use minirouter.Py.{Value, pos, int, str, list, nil, cons}
use minirouter.Fugu.Extract.{list_candidates}
use minirouter.Fugu.Gate.{
  ok, raise, all, steps, Workflow, normalize_access, normalize_text, names_query, parse_int,
  validate_workflow_lists, parse_workflow, try_models, check_step, model_of, subtask_of,
  normalize_items, access_indices, sort_unique,
}
use minirouter.Fugu.Gate.Sound.{IsWorkflow, parse_workflow-IsWorkflow}

-- The superscript two passes `isdigit`, but `int` does not read it.
superscript : normalize_access plain (str (0xb2 ∷ [])) 3 ≡ raise
unfolding normalize_access normalize_text names_query parse_int isdigit int_from lower lstrip strip
    text_eq
superscript = refl

abbrev two_steps : Workflow
two_steps =
    record { model_id = 0; subtask = codes "solve"; access = steps [] }
    ∷ record { model_id = 1; subtask = codes "check"; access = all }
    ∷ []

-- A literal evaluator that knows three spans.
abbrev evaluator : Text → Option Value
evaluator s =
    if text_eq s (codes "[0,1]")
    then some (list (cons (int (pos 0)) (cons (int (pos 1)) nil)))
    else if text_eq s (codes "['solve','check']")
    then some (list (cons (str (codes "solve")) (cons (str (codes "check")) nil)))
    else if text_eq s (codes "[[],'all']")
    then some (list (cons (list nil) (cons (str (codes "all")) nil)))
    else none

abbrev proposal : Text
proposal = codes "model_id=[0,1] subtasks=['solve','check'] access_list=[[],'all']"

accepted : parse_workflow plain evaluator proposal 2 5 false ≡ ok two_steps
unfolding parse_workflow try_models validate_workflow_lists check_step model_of subtask_of
    normalize_access normalize_text normalize_items access_indices sort_unique list_candidates
    is_word lower lstrip strip text_eq names_query
accepted = refl

parse_workflow-IsWorkflow_example : IsWorkflow 2 5 false two_steps
parse_workflow-IsWorkflow_example =
    parse_workflow-IsWorkflow plain evaluator proposal 2 5 false accepted
