-- ===== src/EnvFile/Kept.antt =====
-- The environment that a process has wins over the files.
use minirouter.Prelude.{
  ◌≡◌, refl, sym, ap, ◌∙◌, Option-cases, Bool, true, false, Option, none, some, List, [], ◌∷◌, Text,
  text_eq, inl, inr, if◌then◌else◌,
}
use minirouter.Validator.Queue.Keys.{text_eq_sound}
use minirouter.Graders.Scan.{split_lines}
use minirouter.EnvFile.{
  Parsed, ok, value_error, parse_env_line, Environ, getenv, set_if_absent, then_lines, load_lines,
  with_path, load_env_file, next_file, load_project_env,
}

module _ (expand : Environ → Text → Text) (key value : Text) where
  abbrev Has : Environ → Type 0
  Has env = getenv key env ≡ some value

  -- Another key in front does not hide this one, nor does this key with the pair it has.
  set_if_absent-Has : (k v : Text) (env : Environ) → Has env → Has (set_if_absent k v env)
  unfolding set_if_absent getenv
  set_if_absent-Has k v env h = elim (Option-cases (getenv k env)) [
    | inl e ↦ rw (e, set_if_absent) (added e (text_eq k key) refl)
    | inr (w, e) ↦ rw (e, set_if_absent) h
  ]
    where
      added :
          getenv k env ≡ none
          → (b : Bool) → text_eq k key ≡ b
          → (if b then some v else getenv key env) ≡ some value
      added e false t = h
      added e true t =
          absurd (clash (sym h ∙ ap (λ x. getenv x env) (sym (text_eq_sound k key t)) ∙ e))
        where
          clash : Option.some value ≡ Option.none → ⊥
          clash p = cc

  load_lines-Has : (ls : List Text) (env : Environ) → Has env → Has (load_lines expand ls env).1
  unfolding load_lines
  load_lines-Has [] env h = h
  load_lines-Has (l ∷ ls) env h =
      go (parse_env_line expand env l) (λ env' k. load_lines-Has ls env' k)
    where
      go :
          (p : Parsed (Option (Text × Text)))
          → ((env' : Environ) → Has env' → Has (load_lines expand ls env').1)
          → Has (then_lines env (λ env'. load_lines expand ls env') p).1
      go value_error k = h
      go (ok none) k = k env h
      go (ok (some (x, v))) k = k (set_if_absent x v env) (set_if_absent-Has x v env h)

  with_path-Has : (r : Parsed Unit × Environ) → Has r.1 → Has (with_path r).1
  with_path-Has (ok u, env) h = h
  with_path-Has (value_error, env) h = h

  load_env_file-Has :
      (file : Option Text) (env : Environ) → Has env → Has (load_env_file expand file env).1
  unfolding load_env_file
  load_env_file-Has none env h = h
  load_env_file-Has (some text) env h =
      with_path-Has (load_lines expand (split_lines text) env)
        (load_lines-Has (split_lines text) env h)

  -- A variable that is set in the environment keeps its value through the loading of the secrets
  -- files, whichever of them exist, also where a line raises.
  pub load_project_env-Has :
      (files : List (Option Text)) (env : Environ)
      → getenv key env ≡ some value
      → getenv key (load_project_env expand files env).1 ≡ some value
  unfolding load_project_env
  load_project_env-Has [] env h = h
  load_project_env-Has (file ∷ files) env h =
      go (load_env_file expand file env) (load_env_file-Has file env h)
        (λ env' k. load_project_env-Has files env' k)
    where
      go :
          (r : Parsed Bool × Environ)
          → Has r.1
          → ((env' : Environ) → Has env' → Has (load_project_env expand files env').1)
          → Has (next_file (λ env'. load_project_env expand files env') r).1
      go (ok false, env') k rest = rest env' k
      go (ok true, env') k rest = k
      go (value_error, env') k rest = k
