-- ===== src/Fugu/Gate/Sound.antt =====
-- What an accepted workflow is.
use mathlib.Core.Path.{subst}
use minirouter.Prelude.{
  ℕ, suc, ◌+◌, ◌≤◌, ◌≡◌, ◌≢◌, refl, ap, Bool, not, ◌&&◌, ◌||◌, Option, List, [], ◌∷◌, arith, Text,
  strip, strip-strip, length, ltb, ◌==◌, if◌then◌else◌,
}
use minirouter.Prelude.Unicode.{Unicode}
use minirouter.Py.{Value, pos, negsuc, int, str}
use minirouter.Fugu.Extract.{list_candidates}
use minirouter.Fugu.Gate.{
  Checked, ok, reject, WorkflowStep, Workflow, normalize_access, model_of, subtask_of, not_empty,
  check_step, check_steps, validate_workflow_lists, Candidates, try_models, try_access,
  try_subtasks, parse_workflow, model_keys, subtask_keys, access_keys, highest, fill_access,
}
use minirouter.Fugu.Gate.Holds.{
  Holds, Holds-bind, Holds-any, Holds-if, Holds-weaken, Holds-both, Holds-or_next,
}
use minirouter.Fugu.Gate.Reads.{IsAccess, normalize_access-IsAccess}

-- Step `i` names a model up to `hi`, has a stripped instruction that is not empty, and reads only
-- steps in front of it.
pub record IsStep (hi i : ℕ) (st : WorkflowStep) : Type 0 where
  pub model : st.model_id ≤ hi
  pub text : st.subtask ≢ []
  pub trimmed : strip st.subtask ≡ st.subtask
  pub reads : IsAccess i st.access

abbrev pub AllSteps : ℕ → ℕ → Workflow → Type 0
AllSteps hi i [] = Unit
AllSteps hi i (st ∷ sts) = IsStep hi i st × AllSteps hi (i + 1) sts

pub record IsWorkflow (n_workers max_steps : ℕ) (allow_self : Bool) (wf : Workflow) : Type 0 where
  pub some_step : 1 ≤ length wf
  pub bounded : length wf ≤ max_steps
  pub steps_hold : AllSteps (highest n_workers allow_self) 0 wf

model_of-le : (hi : ℕ) (v : Value) → Holds (λ mid. mid ≤ hi) (model_of hi v)
unfolding model_of
model_of-le hi (int (pos mid)) =
    Holds-if (λ m. m ≤ hi) (ltb hi mid) reject (ok mid) (λ h. tt) (λ h. ground arith)
model_of-le hi (int (negsuc n)) = tt
model_of-le hi _ = tt

abbrev IsSubtask : Text → Type 0
IsSubtask t = (t ≢ []) × (strip t ≡ t)

not_empty-IsSubtask : (t : Text) → strip t ≡ t → Holds IsSubtask (not_empty t)
not_empty-IsSubtask [] h = tt
not_empty-IsSubtask (c ∷ t) h = (λ e. cc, h)

subtask_of-IsSubtask : (v : Value) → Holds IsSubtask (subtask_of v)
unfolding subtask_of
subtask_of-IsSubtask (str s) = not_empty-IsSubtask (strip s) (strip-strip s)
subtask_of-IsSubtask _ = tt

check_step-IsStep :
    (u : Unicode) (hi i : ℕ) (m s a : Value) → Holds (IsStep hi i) (check_step u hi i m s a)
unfolding check_step
check_step-IsStep u hi i m s a =
    Holds-bind (λ mid. mid ≤ hi) _ (model_of hi m) _ (model_of-le hi m)
      λ mid hm. Holds-bind IsSubtask _ (subtask_of s) _ (subtask_of-IsSubtask s) λ sub hs.
        Holds-bind (IsAccess i) (IsStep hi i) (normalize_access u a i) _
          (normalize_access-IsAccess u a i)
          λ acc ha. record { model = hm; text = hs.0; trimmed = hs.1; reads = ha }

check_steps-AllSteps :
    (u : Unicode) (hi i : ℕ) (ms ss as' : List Value)
    → Holds (AllSteps hi i) (check_steps u hi i ms ss as')
unfolding check_steps
check_steps-AllSteps u hi i (m ∷ ms) (s ∷ ss) (a ∷ as') =
    Holds-bind (IsStep hi i) _ (check_step u hi i m s a) _ (check_step-IsStep u hi i m s a) λ st h.
      Holds-bind (AllSteps hi (i + 1)) (AllSteps hi i) (check_steps u hi (i + 1) ms ss as') _
        (check_steps-AllSteps u hi (i + 1) ms ss as') (λ rest h'. (h, h'))
check_steps-AllSteps u hi i _ _ _ = tt

-- The loop makes one step for each entry of lists of one length.
check_steps-length :
    (u : Unicode) (hi i : ℕ) (ms ss as' : List Value)
    → length ss ≡ length ms
    → length as' ≡ length ms
    → Holds (λ wf. length wf ≡ length ms) (check_steps u hi i ms ss as')
unfolding check_steps
check_steps-length u hi i [] [] [] p q = refl
check_steps-length u hi i (m ∷ ms) (s ∷ ss) (a ∷ as') p q =
    Holds-bind (λ _. Unit {0}) (λ wf. length wf ≡ length (m ∷ ms)) (check_step u hi i m s a) _
      (Holds-any (check_step u hi i m s a))
      λ st _.
        Holds-bind (λ wf. length wf ≡ length ms) (λ wf. length wf ≡ length (m ∷ ms))
          (check_steps u hi (i + 1) ms ss as') _
          (check_steps-length u hi (i + 1) ms ss as' (omega arith) (omega arith))
          (λ rest h. ap suc h)
check_steps-length u hi i [] (s ∷ ss) _ p q = absurd (omega arith)
check_steps-length u hi i [] [] (a ∷ as') p q = absurd (omega arith)
check_steps-length u hi i (m ∷ ms) [] _ p q = absurd (omega arith)
check_steps-length u hi i (m ∷ ms) (s ∷ ss) [] p q = absurd (omega arith)

module _ (u : Unicode) (n_workers limit : ℕ) (allow_self : Bool) where
  validate_workflow_lists-IsWorkflow :
      (ms ss as' : List Value)
      → Holds
          (IsWorkflow n_workers limit allow_self)
          (validate_workflow_lists u n_workers limit allow_self ms ss as')
  unfolding validate_workflow_lists
  validate_workflow_lists-IsWorkflow ms ss as' =
      let filled = fill_access (length ms) as' in
      Holds-if _ ((length ms == 0) || ltb limit (length ms)) reject _ (λ _. tt)
        λ some_models.
          Holds-if _ (not ((length ss == length ms) && (length filled == length ms))) reject _
            (λ _. tt)
            λ same.
              Holds-weaken
                (λ wf. AllSteps (highest n_workers allow_self) 0 wf × (length wf ≡ length ms)) _
                (check_steps u (highest n_workers allow_self) 0 ms ss filled)
                (Holds-both _ _ (check_steps u (highest n_workers allow_self) 0 ms ss filled)
                  (check_steps-AllSteps u (highest n_workers allow_self) 0 ms ss filled)
                  (check_steps-length u (highest n_workers allow_self) 0 ms ss filled (ground arith)
                    (ground arith)))
                (λ wf h. record {
                  some_step = ground arith;
                  bounded = ground arith;
                  steps_hold = h.0;
                })

module _ (P : Workflow → Type 0)
    (validate : List Value → List Value → List Value → Checked Workflow)
    (valid : (ms ss as' : List Value) → Holds P (validate ms ss as')) where
  try_access-Holds :
      (s_pos : ℕ) (ms ss : List Value) (access : Candidates)
      → Holds P (try_access validate s_pos ms ss access)
  unfolding try_access
  try_access-Holds s_pos ms ss [] = tt
  try_access-Holds s_pos ms ss ((a_pos, as') ∷ rest) =
      Holds-or_next P (if ltb a_pos s_pos then reject else validate ms ss as')
        (try_access validate s_pos ms ss rest)
        (Holds-if P (ltb a_pos s_pos) reject (validate ms ss as') (λ _. tt) (λ _. valid ms ss as'))
        (try_access-Holds s_pos ms ss rest)

  try_subtasks-Holds :
      (m_pos : ℕ) (ms : List Value) (access subtasks : Candidates)
      → Holds P (try_subtasks validate m_pos ms access subtasks)
  unfolding try_subtasks
  try_subtasks-Holds m_pos ms access [] = tt
  try_subtasks-Holds m_pos ms access ((s_pos, ss) ∷ rest) =
      Holds-or_next P (if ltb s_pos m_pos then reject else try_access validate s_pos ms ss access)
        (try_subtasks validate m_pos ms access rest)
        (Holds-if P (ltb s_pos m_pos) reject (try_access validate s_pos ms ss access) (λ _. tt)
          (λ _. try_access-Holds s_pos ms ss access))
        (try_subtasks-Holds m_pos ms access rest)

  try_models-Holds :
      (subtasks access models : Candidates) → Holds P (try_models validate subtasks access models)
  unfolding try_models
  try_models-Holds subtasks access [] = tt
  try_models-Holds subtasks access ((m_pos, ms) ∷ rest) =
      Holds-or_next P (try_subtasks validate m_pos ms access subtasks)
        (try_models validate subtasks access rest) (try_subtasks-Holds m_pos ms access subtasks)
        (try_models-Holds subtasks access rest)

parse_workflow-Holds :
    (u : Unicode) (n_workers limit : ℕ) (allow_self : Bool) (literal_eval : Text → Option Value)
    (text : Text)
    → Holds
        (IsWorkflow n_workers limit allow_self)
        (parse_workflow u literal_eval text n_workers limit allow_self)
unfolding parse_workflow
parse_workflow-Holds u n_workers limit allow_self literal_eval [] = tt
parse_workflow-Holds u n_workers limit allow_self literal_eval (c ∷ text) =
    Holds-if _ (n_workers == 0) reject _ (λ _. tt)
      λ _.
        try_models-Holds (IsWorkflow n_workers limit allow_self)
          (validate_workflow_lists u n_workers limit allow_self)
          (validate_workflow_lists-IsWorkflow u n_workers limit allow_self)
          (list_candidates u literal_eval (c ∷ text) subtask_keys)
          (list_candidates u literal_eval (c ∷ text) access_keys)
          (list_candidates u literal_eval (c ∷ text) model_keys)

-- A workflow that the gate accepts, from any text and whatever the literals evaluate to, has from
-- one to `max_steps` steps; each names a worker of the pool (or itself, where that is allowed), has
-- a stripped instruction that is not empty, and reads all prior steps or a strictly ascending list
-- of steps in front of it.
pub parse_workflow-IsWorkflow :
    (u : Unicode) (literal_eval : Text → Option Value) (text : Text) (n_workers limit : ℕ)
    (allow_self : Bool) {wf : Workflow}
    → parse_workflow u literal_eval text n_workers limit allow_self ≡ ok wf
    → IsWorkflow n_workers limit allow_self wf
parse_workflow-IsWorkflow u literal_eval text n_workers limit allow_self h =
    subst (Holds (IsWorkflow n_workers limit allow_self)) h
      (parse_workflow-Holds u n_workers limit allow_self literal_eval text)
