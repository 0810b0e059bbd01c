-- ===== src/Validator/Runtime.antt =====
-- validator/src/eval_backend/services/runtime_config.py and review_control.py: the one row of each
-- table, or none before it is made. The scores stay abstract; `default_king` is the column default
-- of models.py, which the database sets on a row that is inserted without a score.
pub mod Settling
pub mod ReadBack
mod Tests
use minirouter.Prelude.{
  ℕ, zero, suc, Bool, true, false, ◌||◌, Option, none, some, List, [], ◌∷◌, Text, codes, text_eq,
  strip, if◌then◌else◌,
}
use minirouter.Prelude.Unicode.{Unicode, lower}
use minirouter.Py.{ℤ, pos, negsuc}

-- of the settings, the fields that are read or replaced here
pub record Settings (S : Type 0) : Type 0 where
  pub eval_benchmark : Text
  pub train_benchmark : Text
  pub eval_max_items : ℤ
  pub eval_batch_size : ℤ
  pub eval_provider : Text
  pub eval_models_config : Text
  pub eval_execution_mode : Text
  pub github_review_score_threshold : S

pub record RuntimeDefaults (S : Type 0) : Type 0 where
  pub benchmark_names : List Text
  pub eval_max_items : ℤ
  pub eval_batch_size : ℤ
  pub eval_provider : Text
  pub eval_models_config : Text
  pub eval_execution_mode : Text
  pub king_score : S

pub record CompetitionRuntimeConfig (S : Type 0) : Type 0 where
  pub default_benchmark_names_json : List Text
  pub default_eval_max_items : ℤ
  pub default_eval_batch_size : ℤ
  pub default_eval_provider : Text
  pub default_eval_models_config : Text
  pub default_eval_execution_mode : Text
  pub king_score : Option S
  pub updated_at : ℕ

-- `x or y` on texts, lists, numbers and scores that may be None
abbrev pub or_text : Text → Text → Text
or_text [] y = y
or_text (c ∷ s) y = c ∷ s

abbrev pub or_texts : List Text → List Text → List Text
or_texts [] y = y
or_texts (t ∷ ts) y = t ∷ ts

abbrev pub or_int : ℤ → ℤ → ℤ
or_int (pos zero) y = y
or_int x y = x

abbrev pub or_score {ℓ} : {A : Type ℓ} → Option A → A → A
or_score none y = y
or_score (some x) y = x

-- `x if x > 0 else y`
abbrev pub if_positive : ℤ → ℤ → ℤ
if_positive (pos (suc n)) y = pos (suc n)
if_positive _ y = y

-- `x if x.strip() else y`
abbrev pub if_filled : Text → Text → Text
if_filled x y = elim (strip x) [ [] ↦ y | c ∷ s ↦ x ]

-- max(1, int(x))
abbrev pub at_least_one : ℤ → ℤ
at_least_one (pos (suc n)) = pos (suc n)
at_least_one _ = pos 1

abbrev pub first_text : List Text → Text → Text
first_text [] other = other
first_text (t ∷ ts) other = t

-- `[item.strip() for item in names if item and item.strip()]`
unfoldable pub clean_benchmarks : List Text → List Text
clean_benchmarks [] = []
clean_benchmarks (t ∷ ts) =
    let rest = clean_benchmarks ts in elim (strip t) [ [] ↦ rest | c ∷ s ↦ (c ∷ s) ∷ rest ]

-- the arguments of `update_runtime_config`
pub record Change : Type 0 where
  pub benchmark_names : List Text
  pub eval_max_items : ℤ
  pub eval_batch_size : ℤ
  pub eval_provider : Text
  pub eval_models_config : Text
  pub eval_execution_mode : Text

-- the mode that is asked for, where it is one of the two
abbrev pub mode_or : Unicode → Text → Text → Text
mode_or u asked other =
    let mode = lower u (strip asked) in
    if text_eq mode (codes "local_cpu") || text_eq mode (codes "remote_gpu") then mode else other

module _ {S : Type 0} where
  unfoldable pub default_runtime : Settings S → RuntimeDefaults S
  default_runtime settings = record {
    benchmark_names = elim settings.eval_benchmark [
      | [] ↦ codes "math500" ∷ []
      | c ∷ s ↦ (c ∷ s) ∷ []
    ];
    eval_max_items = settings.eval_max_items;
    eval_batch_size = settings.eval_batch_size;
    eval_provider = settings.eval_provider;
    eval_models_config = settings.eval_models_config;
    eval_execution_mode = settings.eval_execution_mode;
    king_score = settings.github_review_score_threshold;
  }

  -- The row at the time `now`.
  unfoldable pub seed_runtime_config :
      ℕ → Settings S → Option (CompetitionRuntimeConfig S) → CompetitionRuntimeConfig S
  unfolding default_runtime
  seed_runtime_config now settings none =
      let defaults = default_runtime settings in
      record {
        default_benchmark_names_json = defaults.benchmark_names;
        default_eval_max_items = defaults.eval_max_items;
        default_eval_batch_size = defaults.eval_batch_size;
        default_eval_provider = defaults.eval_provider;
        default_eval_models_config = defaults.eval_models_config;
        default_eval_execution_mode = defaults.eval_execution_mode;
        king_score = some defaults.king_score;
        updated_at = now;
      }
  seed_runtime_config now settings (some row) =
      let defaults = default_runtime settings in
      record {
        default_benchmark_names_json =
            or_texts row.default_benchmark_names_json defaults.benchmark_names;
        default_eval_max_items = if_positive row.default_eval_max_items defaults.eval_max_items;
        default_eval_batch_size = if_positive row.default_eval_batch_size defaults.eval_batch_size;
        default_eval_provider = if_filled row.default_eval_provider defaults.eval_provider;
        default_eval_models_config =
            if_filled row.default_eval_models_config defaults.eval_models_config;
        default_eval_execution_mode =
            if_filled row.default_eval_execution_mode defaults.eval_execution_mode;
        king_score = some (or_score row.king_score defaults.king_score);
        updated_at = now;
      }

  -- The row that is there, or the seeded one.
  abbrev pub row_of :
      ℕ → Settings S → Option (CompetitionRuntimeConfig S) → CompetitionRuntimeConfig S
  row_of now settings none = seed_runtime_config now settings none
  row_of now settings (some row) = row

  abbrev pub read_row : Settings S → CompetitionRuntimeConfig S → RuntimeDefaults S
  read_row settings row = record {
    benchmark_names =
        or_texts row.default_benchmark_names_json (default_runtime settings).benchmark_names;
    eval_max_items = or_int row.default_eval_max_items settings.eval_max_items;
    eval_batch_size = or_int row.default_eval_batch_size settings.eval_batch_size;
    eval_provider = or_text row.default_eval_provider settings.eval_provider;
    eval_models_config = or_text row.default_eval_models_config settings.eval_models_config;
    eval_execution_mode = or_text row.default_eval_execution_mode settings.eval_execution_mode;
    king_score = or_score row.king_score (default_runtime settings).king_score;
  }

  -- What is read, and the row that is there afterwards.
  unfoldable pub get_runtime_config :
      ℕ
      → Settings S
      → Option (CompetitionRuntimeConfig S)
      → RuntimeDefaults S × CompetitionRuntimeConfig S
  unfolding seed_runtime_config
  get_runtime_config now settings row =
      (read_row settings (row_of now settings row), row_of now settings row)

  unfoldable pub apply_runtime_defaults : Settings S → RuntimeDefaults S → Settings S
  apply_runtime_defaults settings runtime =
      let benchmark = first_text runtime.benchmark_names settings.eval_benchmark in
      record settings {
        eval_benchmark = benchmark;
        train_benchmark = benchmark;
        eval_max_items = runtime.eval_max_items;
        eval_batch_size = runtime.eval_batch_size;
        eval_provider = runtime.eval_provider;
        eval_models_config = runtime.eval_models_config;
        eval_execution_mode = runtime.eval_execution_mode;
      }

  -- the score of the row, or of a row that has just been inserted
  abbrev pub king_of : S → Option (CompetitionRuntimeConfig S) → Option S
  king_of default_king none = some default_king
  king_of default_king (some row) = row.king_score

  unfoldable pub update_runtime_config :
      Unicode
      → S
      → ℕ
      → Settings S
      → Change
      → Option (CompetitionRuntimeConfig S)
      → CompetitionRuntimeConfig S
  unfolding clean_benchmarks default_runtime
  update_runtime_config u default_king now settings change row = record {
    default_benchmark_names_json =
        or_texts (clean_benchmarks change.benchmark_names)
          (default_runtime settings).benchmark_names;
    default_eval_max_items = at_least_one change.eval_max_items;
    default_eval_batch_size = at_least_one change.eval_batch_size;
    default_eval_provider = or_text (strip change.eval_provider) settings.eval_provider;
    default_eval_models_config =
        or_text (strip change.eval_models_config) settings.eval_models_config;
    default_eval_execution_mode = mode_or u change.eval_execution_mode settings.eval_execution_mode;
    king_score = some (or_score (king_of default_king row) (default_runtime settings).king_score);
    updated_at = now;
  }

  unfoldable pub update_king_score :
      ℕ → Settings S → S → Option (CompetitionRuntimeConfig S) → CompetitionRuntimeConfig S
  unfolding seed_runtime_config
  update_king_score now settings king row = record (row_of now settings row) {
    king_score = some king;
    updated_at = now;
  }

pub record ReviewControl : Type 0 where
  pub enabled : Bool
  pub started_by : Option Text
  pub started_at : Option ℕ
  pub updated_at : ℕ

-- `get_review_control`, which seeds a row that is not enabled
unfoldable pub get_review_control : ℕ → Option ReviewControl → ReviewControl
get_review_control now none = record {
  enabled = false;
  started_by = none;
  started_at = none;
  updated_at = now;
}
get_review_control now (some row) = row

abbrev pub starter : Option Text → Option Text → Option Text
starter none previous = previous
starter (some name) previous = elim (strip name) [ [] ↦ previous | c ∷ s ↦ some (c ∷ s) ]

unfoldable pub start_review : ℕ → Option Text → Option ReviewControl → ReviewControl
unfolding get_review_control
start_review now started_by row =
    let control = get_review_control now row in
    record control {
      enabled = true;
      started_by = starter started_by control.started_by;
      started_at = some (or_score control.started_at now);
      updated_at = now;
    }

unfoldable pub pause_review : ℕ → Option ReviewControl → ReviewControl
unfolding get_review_control
pause_review now row = record (get_review_control now row) { enabled = false; updated_at = now }
