-- ===== src/Fugu/Gate/Complete.antt =====
-- Every valid workflow has three lists that the gate reads back as that workflow.
use minirouter.Prelude.{ℕ, List, [], ◌∷◌, map, codes}
use minirouter.Prelude.Unicode.{Unicode}
use minirouter.Py.{Value, Items, pos, int, str, list, nil, cons}
use minirouter.Fugu.Gate.{Access, all, steps, WorkflowStep, Workflow}

-- The three lists of a workflow, as a Conductor would write them.
abbrev pub int_items : List ℕ → Items
int_items [] = nil
int_items (j ∷ js) = cons (int (pos j)) (int_items js)

abbrev pub access_value : Access → Value
access_value all = str (codes "all")
access_value (steps js) = list (int_items js)

abbrev pub models_of : Workflow → List Value
models_of = map (λ (st : WorkflowStep). int (pos st.model_id))

abbrev pub subtasks_of : Workflow → List Value
subtasks_of = map (λ (st : WorkflowStep). str st.subtask)

abbrev pub access_of : Workflow → List Value
access_of = map (λ (st : WorkflowStep). access_value st.access)
