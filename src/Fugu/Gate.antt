-- ===== src/Fugu/Gate.antt =====
-- src/trinity/fugu/workflow.py: the parse-gate. A check accepts, rejects the candidate, or raises:
-- `int(s)` of a text that `isdigit` passes may still raise `ValueError`, and no caller catches it.
mod Tests
mod Holds
pub mod Reads
pub mod Sound
pub mod Complete
use minirouter.Prelude.{
  ℕ, zero, suc, ◌+◌, ◌-◌, Bool, true, false, not, ◌&&◌, ◌||◌, Option, none, some, List, [], ◌∷◌,
  ◌++◌, Text, codes, text_eq, strip, length, ltb, leb, ◌==◌, if◌then◌else◌,
}
use minirouter.Prelude.Unicode.{Unicode, lower, isdigit, int_from}
use minirouter.Py.{Value, Items, ℤ, pos, negsuc, nothing, truth, int, str, list, tuple, nil}
use minirouter.Fugu.Extract.{to_list, list_candidates}

pub data Checked {ℓ} (A : Type ℓ) : Type ℓ where
  ok : A → Checked A
  reject : Checked A
  raise : Checked A

infixl 5 ◌>>=◌
abbrev pub ◌>>=◌ {ℓ κ} : {A : Type ℓ} {B : Type κ} → Checked A → (A → Checked B) → Checked B
ok a >>= f = f a
reject >>= f = reject
raise >>= f = raise

-- the access of a step: "all", or indices of prior steps
pub data Access : Type 0 where
  all : Access
  steps : List ℕ → Access

pub record WorkflowStep : Type 0 where
  pub model_id : ℕ
  pub subtask : Text
  pub access : Access

-- `Workflow.steps`
abbrev pub Workflow : Type 0
Workflow = List WorkflowStep

abbrev pub max_steps_default : ℕ
max_steps_default = 5

-- `int(s)` for a text of digits: no value where a character has none, or past the interpreter's
-- limit on the length of a decimal literal.
unfoldable pub parse_int : Unicode → Text → Checked ℕ
parse_int u s =
    if ltb 4300 (length s) then raise else elim (int_from u 0 s) [ none ↦ raise | some n ↦ ok n ]

-- s in {"", "none", "no", "null", "query"}
unfoldable pub names_query : Text → Bool
names_query s =
    text_eq s []
    || (text_eq s (codes "none")
        || (text_eq s (codes "no") || (text_eq s (codes "null") || text_eq s (codes "query"))))

abbrev pub prior : ℕ → ℕ → Checked ℕ
prior step_index j = if ltb j step_index then ok j else reject

-- one entry of an access list, up to `out.append(j)`
unfoldable pub access_index : Unicode → ℕ → Value → Checked ℕ
access_index u step_index (str s) =
    if isdigit u (strip s) then parse_int u (strip s) >>= prior step_index else reject
access_index u step_index (int (pos j)) = prior step_index j
access_index u step_index _ = reject

unfoldable pub access_indices : Unicode → ℕ → List Value → Checked (List ℕ)
access_indices u step_index [] = ok []
access_indices u step_index (v ∷ vs) =
    access_index u step_index v >>= λ j. access_indices u step_index vs >>= λ js. ok (j ∷ js)

-- sorted(set(out))
unfoldable pub insert_unique : ℕ → List ℕ → List ℕ
insert_unique j [] = j ∷ []
insert_unique j (k ∷ ks) =
    if ltb j k then j ∷ k ∷ ks else if j == k then k ∷ ks else k ∷ insert_unique j ks

unfoldable pub sort_unique : List ℕ → List ℕ
unfolding insert_unique
sort_unique [] = []
sort_unique (j ∷ js) = insert_unique j (sort_unique js)

abbrev pub steps_of : Checked (List ℕ) → Checked Access
steps_of js = js >>= λ out. ok (steps (sort_unique out))

-- the branch for a list or a tuple
unfoldable pub normalize_items : Unicode → ℕ → List Value → Checked Access
unfolding access_indices names_query
normalize_items u step_index (str s ∷ []) =
    if text_eq (lower u (strip s)) (codes "all")
    then ok all
    else if names_query (lower u (strip s))
    then ok (steps [])
    else steps_of (access_indices u step_index (str s ∷ []))
normalize_items u step_index vs = steps_of (access_indices u step_index vs)

-- the branch for a text, which is stripped and lowered
unfoldable pub normalize_text : Unicode → ℕ → Text → Checked Access
unfolding names_query
normalize_text u step_index s =
    if text_eq s (codes "all")
    then ok all
    else if names_query s
    then ok (steps [])
    else if isdigit u s
    then (parse_int u s >>= λ j. prior step_index j >>= λ k. ok (steps (k ∷ [])))
    else reject

unfoldable pub normalize_access : Unicode → Value → ℕ → Checked Access
normalize_access u nothing step_index = ok (steps [])
normalize_access u (str s) step_index = normalize_text u step_index (lower u (strip s))
normalize_access u (list vs) step_index = normalize_items u step_index (to_list vs)
normalize_access u (tuple vs) step_index = normalize_items u step_index (to_list vs)
normalize_access u _ step_index = reject

-- the tests on `models[i]`
unfoldable pub model_of : ℕ → Value → Checked ℕ
model_of hi (int (pos mid)) = if ltb hi mid then reject else ok mid
model_of hi _ = reject

abbrev pub not_empty : Text → Checked Text
not_empty [] = reject
not_empty (c ∷ s) = ok (c ∷ s)

-- the tests on `subtasks[i]`
unfoldable pub subtask_of : Value → Checked Text
subtask_of (str s) = not_empty (strip s)
subtask_of _ = reject

unfoldable pub check_step : Unicode → ℕ → ℕ → Value → Value → Value → Checked WorkflowStep
check_step u hi i model subtask access = do
  mid ← model_of hi model
  sub ← subtask_of subtask
  norm ← normalize_access u access i
  ok (record { model_id = mid; subtask = sub; access = norm })

-- the loop of `_validate_workflow_lists`, from step `i`; the lists have one length
unfoldable pub check_steps :
    Unicode → ℕ → ℕ → List Value → List Value → List Value → Checked (List WorkflowStep)
check_steps u hi i (m ∷ models) (s ∷ subtasks) (a ∷ access) = check_step u hi i m s a >>= λ step.
    check_steps u hi (i + 1) models subtasks access >>= λ rest. ok (step ∷ rest)
check_steps u hi i _ _ _ = ok []

-- `access = [[]]` for a single step with no access entry
abbrev pub fill_access : ℕ → List Value → List Value
fill_access n [] = if n == 1 then list nil ∷ [] else []
fill_access n (a ∷ access) = a ∷ access

abbrev pub highest : ℕ → Bool → ℕ
highest n_workers allow_self = if allow_self then n_workers else n_workers - 1

unfoldable pub validate_workflow_lists :
    Unicode → ℕ → ℕ → Bool → List Value → List Value → List Value → Checked Workflow
unfolding check_steps
validate_workflow_lists u n_workers max_steps allow_self models subtasks access =
    let n = length models in
    let filled = fill_access n access in
    if (n == 0) || ltb max_steps n
    then reject
    else if not ((length subtasks == n) && (length filled == n))
    then reject
    else check_steps u (highest n_workers allow_self) 0 models subtasks filled

-- the next candidate is tried behind one that is rejected
abbrev pub or_next {ℓ} : {A : Type ℓ} → Checked A → Checked A → Checked A
or_next (ok a) next = ok a
or_next reject next = next
or_next raise next = raise

abbrev pub Candidates : Type 0
Candidates = List (ℕ × List Value)

module _ (validate : List Value → List Value → List Value → Checked Workflow) where
  try_access : ℕ → List Value → List Value → Candidates → Checked Workflow
  try_access s_pos models subtasks [] = reject
  try_access s_pos models subtasks ((a_pos, access) ∷ rest) =
      or_next (if ltb a_pos s_pos then reject else validate models subtasks access)
        (try_access s_pos models subtasks rest)

  try_subtasks : ℕ → List Value → Candidates → Candidates → Checked Workflow
  try_subtasks m_pos models access [] = reject
  try_subtasks m_pos models access ((s_pos, subtasks) ∷ rest) =
      or_next (if ltb s_pos m_pos then reject else try_access s_pos models subtasks access)
        (try_subtasks m_pos models access rest)

  unfoldable pub try_models : Candidates → Candidates → Candidates → Checked Workflow
  unfolding try_access try_subtasks
  try_models subtasks access [] = reject
  try_models subtasks access ((m_pos, models) ∷ rest) =
      or_next (try_subtasks m_pos models access subtasks) (try_models subtasks access rest)

abbrev pub model_keys : List Text
model_keys =
    codes "model_id"
    ∷ codes "model_ids"
    ∷ codes "models"
    ∷ codes "worker_id"
    ∷ codes "worker_ids"
    ∷ codes "worker"
    ∷ []

abbrev pub subtask_keys : List Text
subtask_keys =
    codes "subtasks"
    ∷ codes "subtask"
    ∷ codes "tasks"
    ∷ codes "instructions"
    ∷ codes "steps_instructions"
    ∷ []

abbrev pub access_keys : List Text
access_keys =
    codes "access_list"
    ∷ codes "access_lists"
    ∷ codes "access"
    ∷ codes "context"
    ∷ codes "reads"
    ∷ codes "inputs"
    ∷ []

-- `parse_workflow`: `ok` is `(Workflow, True)`, `reject` is `(None, False)`. A loop over no
-- candidate rejects, as the test for one does.
unfoldable pub parse_workflow :
    Unicode → (Text → Option Value) → Text → ℕ → ℕ → Bool → Checked Workflow
parse_workflow u literal_eval [] n_workers max_steps allow_self = reject
parse_workflow u literal_eval (c ∷ text) n_workers max_steps allow_self =
    if n_workers == 0
    then reject
    else try_models (validate_workflow_lists u n_workers max_steps allow_self)
        (list_candidates u literal_eval (c ∷ text) subtask_keys)
        (list_candidates u literal_eval (c ∷ text) access_keys)
        (list_candidates u literal_eval (c ∷ text) model_keys)
