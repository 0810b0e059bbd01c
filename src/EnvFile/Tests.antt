-- ===== src/EnvFile/Tests.antt =====
-- Runs of the reader of env files, from tests/test_envfile.py and its corner cases.
use minirouter.Prelude.{
  ◌≡◌, refl, true, Option, none, some, [], ◌∷◌, List, Text, codes, text_eq, is_space, strip,
  if◌then◌else◌,
}
use minirouter.EnvFile.{ok, value_error, parse_env_line, Environ, getenv, load_project_env}
use minirouter.EnvFile.Kept.{load_project_env-Has}

-- An expansion that knows the one variable `$A`.
abbrev expand : Environ → Text → Text
expand env t =
    if text_eq t (codes "$A") then elim (getenv (codes "A") env) [ none ↦ [] | some v ↦ v ] else t

exported :
    parse_env_line expand [] (codes " export A_1 = x y # c ") ≡ ok (some (codes "A_1", codes "x y"))
unfolding parse_env_line strip is_space text_eq
exported = refl

unnamed : parse_env_line expand [] (codes "1A=x") ≡ ok none
unfolding parse_env_line strip is_space
unnamed = refl

trailing_text : parse_env_line expand [] (codes "A='x' y") ≡ value_error
unfolding parse_env_line strip is_space
trailing_text = refl

abbrev env : Environ
env = (codes "A", codes "old") ∷ []

abbrev files : List (Option Text)
files = none ∷ some (codes "B=1\nA=new\n") ∷ some (codes "B=2") ∷ []

-- A line sees what the lines before it have set.
expanded :
    load_project_env expand (some (codes "A=x\nB=$A") ∷ []) []
    ≡ (ok true, (codes "B", codes "x") ∷ (codes "A", codes "x") ∷ [])
unfolding load_project_env strip is_space text_eq getenv
expanded = refl

first_file : load_project_env expand files env ≡ (ok true, (codes "B", codes "1") ∷ env)
unfolding load_project_env strip is_space text_eq getenv
first_file = refl

has_a : getenv (codes "A") env ≡ some (codes "old")
unfolding getenv text_eq
has_a = refl

load_project_env-Has_example :
    getenv (codes "A") (load_project_env expand files env).1 ≡ some (codes "old")
load_project_env-Has_example = load_project_env-Has expand (codes "A") (codes "old") files env has_a
