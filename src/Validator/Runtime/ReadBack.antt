-- ===== src/Validator/Runtime/ReadBack.antt =====
-- What is read of the row after an administrator has changed it.
use minirouter.Prelude.{
  ℕ, zero, suc, ◌≡◌, refl, ap, Bool-cases, inl, inr, ◌⊎◌, Option, none, some, List, [], ◌∷◌, arith,
  Text, codes, text_eq, strip,
}
use minirouter.Prelude.Unicode.{Unicode, lower}
use minirouter.Py.{ℤ, pos, negsuc, ◌<ℤ◌, both_pos, across}
use minirouter.Validator.Queue.Keys.{text_eq_sound, text_eq-differs}
use minirouter.Validator.Runtime.{
  Settings, CompetitionRuntimeConfig, RuntimeDefaults, Change, or_text, or_texts, or_int, or_score,
  at_least_one, default_runtime, get_runtime_config, clean_benchmarks, mode_or,
  update_runtime_config,
}

-- The names that are not blank, in their order, each without the blanks around it.
pub data IsCleaned : List Text → List Text → Type 0 where
  no_name : IsCleaned [] []
  left_out :
      {t : Text} {ts out : List Text} → strip t ≡ [] → IsCleaned ts out → IsCleaned (t ∷ ts) out
  kept :
      {t : Text} {ts out : List Text}
      → ¬ strip t ≡ []
      → IsCleaned ts out
      → IsCleaned (t ∷ ts) (strip t ∷ out)

-- The result is the list or text that is set where that is not empty, else the other one.
abbrev pub IsSetOr {ℓ} : {A : Type ℓ} → List A → List A → List A → Type ℓ
IsSetOr x y r = ((¬ x ≡ []) × (r ≡ x)) ⊎ ((x ≡ []) × (r ≡ y))

-- The benchmarks of the settings: the one that they name, or math500.
abbrev pub IsDefaultNames : Text → List Text → Type 0
IsDefaultNames benchmark names =
    ((¬ benchmark ≡ []) × (names ≡ benchmark ∷ []))
    ⊎ ((benchmark ≡ []) × (names ≡ codes "math500" ∷ []))

-- The size that is asked for where it is positive, else 1.
abbrev pub IsSize : ℤ → ℤ → Type 0
IsSize asked r = ((pos 0 <ℤ asked) × (r ≡ asked)) ⊎ ((asked <ℤ pos 1) × (r ≡ pos 1))

-- One of the two modes where that is asked for, else the mode of the settings.
abbrev pub IsMode : Text → Text → Text → Type 0
IsMode asked other r =
    ((asked ≡ codes "local_cpu") × (r ≡ codes "local_cpu"))
    ⊎ (((asked ≡ codes "remote_gpu") × (r ≡ codes "remote_gpu"))
        ⊎ ((¬ asked ≡ codes "local_cpu") × (¬ asked ≡ codes "remote_gpu") × (r ≡ other)))

clean_benchmarks-IsCleaned : (ts : List Text) → IsCleaned ts (clean_benchmarks ts)
unfolding clean_benchmarks
clean_benchmarks-IsCleaned [] = no_name
clean_benchmarks-IsCleaned (t ∷ ts) = go (strip t) refl (clean_benchmarks-IsCleaned ts)
  where
    go :
        (s : Text)
        → strip t ≡ s
        → IsCleaned ts (clean_benchmarks ts)
        → IsCleaned (t ∷ ts) (elim s as (λ z. List Text) [
          | [] ↦ clean_benchmarks ts
          | c ∷ r ↦ (c ∷ r) ∷ clean_benchmarks ts
        ])
    go [] e rest = left_out e rest
    go (c ∷ r) e rest = rw (← e) (kept (λ p. ground (arith, e, p)) rest)

or_text-IsSetOr : (x y : Text) → IsSetOr x y (or_text (or_text x y) y)
or_text-IsSetOr [] [] = inr (refl, refl)
or_text-IsSetOr [] (c ∷ s) = inr (refl, refl)
or_text-IsSetOr (c ∷ s) y = inl ((λ p. cc), refl)

or_texts-IsSetOr : (x y : List Text) → IsSetOr x y (or_texts (or_texts x y) y)
or_texts-IsSetOr [] [] = inr (refl, refl)
or_texts-IsSetOr [] (c ∷ s) = inr (refl, refl)
or_texts-IsSetOr (c ∷ s) y = inl ((λ p. cc), refl)

at_least_one-IsSize : (x y : ℤ) → IsSize x (or_int (at_least_one x) y)
at_least_one-IsSize (pos zero) y = inr (both_pos (omega arith), refl)
at_least_one-IsSize (pos (suc n)) y = inl (both_pos (omega arith), refl)
at_least_one-IsSize (negsuc n) y = inr (across, refl)

or_text-same : (y : Text) → or_text y y ≡ y
or_text-same [] = refl
or_text-same (c ∷ s) = refl

mode_or-IsMode :
    (u : Unicode) (asked other : Text)
    → IsMode (lower u (strip asked)) other (or_text (mode_or u asked other) other)
mode_or-IsMode u asked other =
    let mode = lower u (strip asked) in
    elim (Bool-cases (text_eq mode (codes "local_cpu"))) [
      | inl e ↦
          let same = text_eq_sound mode (codes "local_cpu") e in
          inl (same, rw e (ap (λ m. or_text m other) same))
      | inr e ↦ elim (Bool-cases (text_eq mode (codes "remote_gpu"))) [
        | inl q ↦
            let same = text_eq_sound mode (codes "remote_gpu") q in
            inr (inl (same, rw (e, q) (ap (λ m. or_text m other) same)))
        | inr q ↦ inr (
            inr
              (text_eq-differs mode _ e, text_eq-differs mode _ q, rw (e, q) (or_text-same other)))
      ]
    ]

module _ {S : Type 0} (u : Unicode) (default_king : S) (now later : ℕ) (settings : Settings S) where
  default_runtime-IsDefaultNames :
      IsDefaultNames settings.eval_benchmark (default_runtime settings).benchmark_names
  unfolding default_runtime
  default_runtime-IsDefaultNames = go settings.eval_benchmark
    where
      go :
          (b : Text)
          → IsDefaultNames b
              (elim b as (λ z. List Text) [ [] ↦ codes "math500" ∷ [] | c ∷ s ↦ (c ∷ s) ∷ [] ])
      go [] = inr (refl, refl)
      go (c ∷ s) = inl ((λ p. cc), refl)

  -- The score to beat: that of the row, the threshold of the settings where the row has none, or
  -- the default of the column where there was no row.
  abbrev IsKing : Option (CompetitionRuntimeConfig S) → S → Type 0
  IsKing none king = king ≡ default_king
  IsKing (some row) king = elim row.king_score [
    | none ↦ king ≡ settings.github_review_score_threshold
    | some k ↦ king ≡ k
  ]

  -- What is read after a change of the row, or of no row.
  pub record IsReadBack (change : Change) (row : Option (CompetitionRuntimeConfig S))
      (r : RuntimeDefaults S) : Type 0 where
    pub names :
        (cleaned : List Text) × (defaults : List Text) × IsCleaned change.benchmark_names cleaned
        × IsDefaultNames settings.eval_benchmark defaults
        × IsSetOr cleaned defaults r.benchmark_names
    pub max_items : IsSize change.eval_max_items r.eval_max_items
    pub batch_size : IsSize change.eval_batch_size r.eval_batch_size
    pub provider : IsSetOr (strip change.eval_provider) settings.eval_provider r.eval_provider
    pub models_config :
        IsSetOr (strip change.eval_models_config) settings.eval_models_config r.eval_models_config
    pub mode :
        IsMode
          (lower u (strip change.eval_execution_mode))
          settings.eval_execution_mode
          r.eval_execution_mode
    pub king : IsKing row r.king_score

  -- What an administrator has set is what is read, whether there was a row or not: the benchmarks
  -- without blank names and stripped, or those of the settings where none is left; the sizes, or 1
  -- for one that is not positive; the stripped texts, or those of the settings for an empty one;
  -- and the mode, or that of the settings for one that is not known. The score to beat is kept.
  pub get_runtime_config-IsReadBack :
      (change : Change) (row : Option (CompetitionRuntimeConfig S))
      → IsReadBack change row
          (get_runtime_config later settings
            (some (update_runtime_config u default_king now settings change row))).0
  unfolding get_runtime_config update_runtime_config default_runtime
  get_runtime_config-IsReadBack change row = record {
    names = (
      clean_benchmarks change.benchmark_names,
      (default_runtime settings).benchmark_names,
      clean_benchmarks-IsCleaned change.benchmark_names,
      default_runtime-IsDefaultNames,
      or_texts-IsSetOr _ _,
    );
    max_items = at_least_one-IsSize change.eval_max_items settings.eval_max_items;
    batch_size = at_least_one-IsSize change.eval_batch_size settings.eval_batch_size;
    provider = or_text-IsSetOr (strip change.eval_provider) settings.eval_provider;
    models_config = or_text-IsSetOr (strip change.eval_models_config) settings.eval_models_config;
    mode = mode_or-IsMode u change.eval_execution_mode settings.eval_execution_mode;
    king = kept_king row;
  }
    where
      of_score : (o : Option S) → elim o as (λ x. Type 0) [
        | none ↦
            or_score o settings.github_review_score_threshold
            ≡ settings.github_review_score_threshold
        | some k ↦ or_score o settings.github_review_score_threshold ≡ k
      ]
      of_score none = refl
      of_score (some k) = refl

      kept_king :
          (row : Option (CompetitionRuntimeConfig S))
          → IsKing row
              (get_runtime_config later settings
                (some (update_runtime_config u default_king now settings change row))).0.king_score
      kept_king none = refl
      kept_king (some row) = of_score row.king_score
