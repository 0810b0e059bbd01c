-- ===== src/Graders/Answers.antt =====
-- src/trinity/orchestration/reward.py: the kinds of benchmark, `has_answer`, and the text of a
-- trajectory that is scored.
pub mod Committed
mod Tests
use minirouter.Prelude.{
  ℕ, Bool, true, false, not, ◌&&◌, ◌||◌, Option, none, some, List, [], ◌∷◌, reverse, Text, codes,
  text_eq, strip, ◌==◌, if◌then◌else◌,
}
use minirouter.Prelude.Unicode.{Unicode, lower}
use minirouter.Py.{Value, nothing}
use minirouter.Types.{Task, TurnRecord, Trajectory}
use minirouter.Fugu.Reward.{Grader}
use minirouter.Graders.Boxed.{behind, extract_boxed}
use minirouter.Graders.Choice.{extract_choice_letter}
use minirouter.Graders.Json.{Loads, fence, extract_json_payload}
use minirouter.Graders.Number.{extract_last_number}

-- the frozen sets of benchmark names
abbrev pub math_benchmarks : List Text
math_benchmarks = codes "math500" ∷ codes "math" ∷ codes "aime" ∷ codes "aime2025" ∷ []

abbrev pub choice_benchmarks : List Text
choice_benchmarks = codes "mmlu" ∷ codes "gpqa" ∷ codes "gpqa-diamond" ∷ codes "gpqa_diamond" ∷ []

abbrev pub code_benchmarks : List Text
code_benchmarks = codes "livecodebench" ∷ codes "lcb" ∷ codes "bigcodebench" ∷ codes "bigcode" ∷ []

abbrev pub ifeval_benchmarks : List Text
ifeval_benchmarks = codes "ifeval" ∷ []

abbrev pub rlpr_benchmarks : List Text
rlpr_benchmarks = codes "rlpr" ∷ []

abbrev pub bfcl_benchmarks : List Text
bfcl_benchmarks = codes "bfcl_simple" ∷ []

unfoldable pub member : Text → List Text → Bool
member key [] = false
member key (t ∷ ts) = text_eq key t || member key ts

-- `(benchmark or "").strip().lower()`
abbrev pub key_of : Unicode → Text → Text
key_of u benchmark = lower u (strip benchmark)

abbrev pub is_there {ℓ} : {A : Type ℓ} → Option A → Bool
is_there none = false
is_there (some a) = true

abbrev pub is_filled : Text → Bool
is_filled [] = false
is_filled (c ∷ s) = true

abbrev is_value : Value → Bool
is_value nothing = false
is_value _ = true

-- `word in text`
abbrev pub has_word : Text → Text → Bool
has_word word text = is_there (behind word text)

-- The branches of `has_answer` on a text that is not empty.
unfoldable pub has_answer_of : Unicode → Loads → Text → Text → Bool
unfolding member
has_answer_of u loads key text =
    let choice = is_there (extract_choice_letter u text) in
    let math = is_there (extract_boxed text) || is_there (extract_last_number u text) in
    if member key choice_benchmarks
    then choice
    else if member key math_benchmarks
    then math
    else if member key rlpr_benchmarks
    then choice || math
    else if member key ifeval_benchmarks
    then is_filled (strip text)
    else if member key bfcl_benchmarks
    then is_value (extract_json_payload u loads text)
    else if member key code_benchmarks
    then has_word fence text || (has_word (codes "def ") text || has_word (codes "import ") text)
    else false

unfoldable pub has_answer : Unicode → Loads → Text → Text → Bool
unfolding has_answer_of
has_answer u loads benchmark [] = false
has_answer u loads benchmark (c ∷ text) = has_answer_of u loads (key_of u benchmark) (c ∷ text)

-- the loop over `reversed(turns)`
unfoldable pub recent_answer : Unicode → Loads → Text → List TurnRecord → Text → Text
unfolding has_answer
recent_answer u loads key [] final = final
recent_answer u loads key (t ∷ rest) final =
    let earlier = recent_answer u loads key rest final in
    if has_answer u loads key t.processed_output then t.processed_output else earlier

-- `_committed_answer`
unfoldable pub committed_answer : Unicode → Loads → Text → Trajectory → Text
unfolding recent_answer
committed_answer u loads benchmark traj =
    let key = key_of u benchmark in
    if has_answer u loads key traj.final_answer
    then traj.final_answer
    else recent_answer u loads key (reverse traj.turns) traj.final_answer
