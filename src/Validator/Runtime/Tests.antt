-- ===== src/Validator/Runtime/Tests.antt =====
-- Runs on the settings of a validator whose threshold is 70.
use minirouter.Prelude.{ℕ, ◌≡◌, refl, true, none, some, [], ◌∷◌, codes, text_eq, is_space, strip}
use minirouter.Prelude.Unicode.{plain, lower}
use minirouter.Py.{pos, negsuc}
use minirouter.Validator.Runtime.{
  Settings, RuntimeDefaults, CompetitionRuntimeConfig, Change, get_runtime_config,
  update_runtime_config, start_review, pause_review,
}
use minirouter.Validator.Runtime.ReadBack.{IsReadBack, get_runtime_config-IsReadBack}

abbrev settings : Settings ℕ
settings = record {
  eval_benchmark = codes "aime";
  train_benchmark = codes "aime";
  eval_max_items = pos 20;
  eval_batch_size = pos 4;
  eval_provider = codes "chutes";
  eval_models_config = codes "m.yaml";
  eval_execution_mode = codes "remote_gpu";
  github_review_score_threshold = 70;
}

abbrev blank : CompetitionRuntimeConfig ℕ
blank = record {
  default_benchmark_names_json = [];
  default_eval_max_items = negsuc 0;
  default_eval_batch_size = pos 0;
  default_eval_provider = codes " ";
  default_eval_models_config = [];
  default_eval_execution_mode = codes "local_cpu";
  king_score = some 82;
  updated_at = 1;
}

abbrev change : Change
change = record {
  benchmark_names = codes " math500 " ∷ codes " " ∷ [];
  eval_max_items = negsuc 4;
  eval_batch_size = pos 8;
  eval_provider = [];
  eval_models_config = codes "x.yaml ";
  eval_execution_mode = codes "GPU";
}

abbrev read_back : RuntimeDefaults ℕ
read_back = record {
  benchmark_names = codes "math500" ∷ [];
  eval_max_items = pos 1;
  eval_batch_size = pos 8;
  eval_provider = codes "chutes";
  eval_models_config = codes "x.yaml";
  eval_execution_mode = codes "remote_gpu";
  king_score = 82;
}

-- A row that the update inserts has the king of the column's default, not the threshold.
inserted_king : (update_runtime_config plain 80 5 settings change none).king_score ≡ some 80
unfolding update_runtime_config
inserted_king = refl

read_again :
    (get_runtime_config 6 settings
      (some (update_runtime_config plain 80 5 settings change (some blank)))).0
    ≡ read_back
unfolding update_runtime_config get_runtime_config strip is_space lower text_eq
read_again = refl

get_runtime_config-IsReadBack_example :
    IsReadBack plain 80 5 6 settings change
      (some blank)
      (get_runtime_config 6 settings
        (some (update_runtime_config plain 80 5 settings change (some blank)))).0
get_runtime_config-IsReadBack_example =
    get_runtime_config-IsReadBack plain 80 5 6 settings change (some blank)

-- The one who started the review first keeps the time of the start.
restarted :
    start_review 9 (some (codes " ann ")) (some (pause_review 4 (some (start_review 3 none none))))
    ≡ record {
      enabled = true;
      started_by = some (codes "ann");
      started_at = some 3;
      updated_at = 9;
    }
unfolding start_review pause_review strip is_space
restarted = refl
