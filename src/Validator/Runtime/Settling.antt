-- ===== src/Validator/Runtime/Settling.antt =====
-- What is read of the row after a new score, and that seeding settles.
use minirouter.Prelude.{ℕ, zero, suc, ◌≡◌, refl, ap, Option, none, some, List, [], ◌∷◌, Text, strip}
use minirouter.Py.{ℤ, pos, negsuc}
use minirouter.Validator.Runtime.{
  Settings, CompetitionRuntimeConfig, or_texts, if_positive, if_filled, default_runtime,
  seed_runtime_config, get_runtime_config, update_king_score,
}

or_texts-same : (y : List Text) → or_texts y y ≡ y
or_texts-same [] = refl
or_texts-same (t ∷ ts) = refl

or_texts-again : (x y : List Text) → or_texts (or_texts x y) y ≡ or_texts x y
or_texts-again [] [] = refl
or_texts-again [] (t ∷ ts) = refl
or_texts-again (t ∷ ts) y = refl

module _ {S : Type 0} (now later : ℕ) (settings : Settings S) where
  -- A new score to beat is the one that is read, and nothing else that is read changes.
  pub get_runtime_config-update_king_score :
      (king : S) (row : CompetitionRuntimeConfig S)
      → (get_runtime_config later settings
          (some (update_king_score now settings king (some row)))).0
        ≡ record (get_runtime_config later settings (some row)).0 { king_score = king }
  unfolding get_runtime_config update_king_score
  get_runtime_config-update_king_score king row = refl

if_positive-same : (y : ℤ) → if_positive y y ≡ y
if_positive-same (pos zero) = refl
if_positive-same (pos (suc n)) = refl
if_positive-same (negsuc n) = refl

if_positive-again : (x y : ℤ) → if_positive (if_positive x y) y ≡ if_positive x y
if_positive-again (pos (suc m)) y = refl
if_positive-again (pos zero) y = if_positive-same y
if_positive-again (negsuc m) y = if_positive-same y

if_filled-same : (y : Text) → if_filled y y ≡ y
if_filled-same y = go (strip y)
  where
    go : (t : Text) → (elim t as (λ z. Text) [ [] ↦ y | c ∷ s ↦ y ]) ≡ y
    go [] = refl
    go (c ∷ s) = refl

if_filled-again : (x y : Text) → if_filled (if_filled x y) y ≡ if_filled x y
if_filled-again x y = go (strip x) refl
  where
    go :
        (t : Text)
        → strip x ≡ t
        → if_filled (elim t as (λ z. Text) [ [] ↦ y | c ∷ s ↦ x ]) y
          ≡ (elim t as (λ z. Text) [ [] ↦ y | c ∷ s ↦ x ])
    go [] e = if_filled-same y
    go (c ∷ s) e = ap (λ t. elim t as (λ z. Text) [ [] ↦ y | d ∷ r ↦ x ]) e

module _ {S : Type 0} (now later : ℕ) (settings : Settings S) where
  -- Seeding settles: on a seeded row, made or mended, a second seeding changes nothing but the time.
  pub seed_runtime_config-again :
      (row : Option (CompetitionRuntimeConfig S))
      → seed_runtime_config later settings (some (seed_runtime_config now settings row))
        ≡ record (seed_runtime_config now settings row) { updated_at = later }
  unfolding seed_runtime_config
  seed_runtime_config-again none = rw (
    or_texts-same (default_runtime settings).benchmark_names,
    if_positive-same (default_runtime settings).eval_max_items,
    if_positive-same (default_runtime settings).eval_batch_size,
    if_filled-same (default_runtime settings).eval_provider,
    if_filled-same (default_runtime settings).eval_models_config,
    if_filled-same (default_runtime settings).eval_execution_mode,
  )
  seed_runtime_config-again (some row) = rw (
    or_texts-again row.default_benchmark_names_json (default_runtime settings).benchmark_names,
    if_positive-again row.default_eval_max_items (default_runtime settings).eval_max_items,
    if_positive-again row.default_eval_batch_size (default_runtime settings).eval_batch_size,
    if_filled-again row.default_eval_provider (default_runtime settings).eval_provider,
    if_filled-again row.default_eval_models_config (default_runtime settings).eval_models_config,
    if_filled-again row.default_eval_execution_mode (default_runtime settings).eval_execution_mode,
  )
