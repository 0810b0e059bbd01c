-- ===== src/EnvFile.antt =====
-- src/trinity/envfile.py: `KEY=VALUE` files. The process environment is a list of pairs; the
-- expansion of variables and of the home directory in a value, which reads the environment as the
-- lines before it have left it, is a parameter.
pub mod Kept
pub mod Quoted
mod Tests
use minirouter.Prelude.{
  ℕ, Bool, true, false, not, ◌&&◌, ◌||◌, Option, none, some, List, [], ◌∷◌, Text, codes, text_eq,
  is_space, lstrip, rstrip, strip, ◌==◌, if◌then◌else◌,
}
use minirouter.Prelude.Unicode.{is_upper_ascii, is_lower_ascii, is_digit_ascii}
use minirouter.Graders.Boxed.{behind_prefix}
use minirouter.Graders.Scan.{split_lines}

-- A value, or the `ValueError` that is raised.
pub data Parsed (A : Type 0) : Type 0 where
  ok : A → Parsed A
  value_error : Parsed A

-- `text[: text.find(sep)]`, and none where it is not found
unfoldable pub up_to : Text → Text → Option Text
unfolding behind_prefix
up_to sep [] = none
up_to sep (c ∷ s) =
    let later = up_to sep s in
    elim (behind_prefix sep (c ∷ s)) [
      | some rest ↦ some []
      | none ↦ elim later [ none ↦ none | some front ↦ some (c ∷ front) ]
    ]

-- `_strip_trailing_env_comment`
unfoldable pub strip_trailing_env_comment : Text → Text
unfolding up_to
strip_trailing_env_comment text = elim (up_to (codes " #") text) [
  | none ↦ text
  | some front ↦ rstrip front
]

-- The scan for the closing quote: what is in front of it and behind it.
unfoldable pub closing : ℕ → Text → Option (Text × Text)
closing quote [] = none
closing quote (c ∷ s) =
    let later = closing quote s in
    if c == quote
    then some ([], s)
    else elim later [ none ↦ none | some (inner, tail) ↦ some (c ∷ inner, tail) ]

-- what may stand behind the closing quote: blanks, or a comment
abbrev pub is_ending : Text → Bool
is_ending tail = elim (lstrip tail) [ [] ↦ true | c ∷ s ↦ c == b'#' ]

abbrev pub in_quotes : Option (Text × Text) → Parsed Text
in_quotes none = value_error
in_quotes (some (inner, tail)) = if is_ending tail then ok inner else value_error

abbrev pub is_quote : ℕ → Bool
is_quote c = (c == b'\'') || (c == b'"')

abbrev pub parse_stripped : Text → Parsed Text
parse_stripped [] = ok []
parse_stripped (c ∷ s) =
    if is_quote c then in_quotes (closing c s) else ok (strip_trailing_env_comment (c ∷ s))

-- `_parse_env_value`
unfoldable pub parse_env_value : Text → Parsed Text
unfolding strip_trailing_env_comment closing
parse_env_value text = parse_stripped (strip text)

abbrev pub is_key_start : ℕ → Bool
is_key_start c = is_upper_ascii c || (is_lower_ascii c || (c == b'_'))

unfoldable pub all_key : Text → Bool
all_key [] = true
all_key (c ∷ s) = (is_key_start c || is_digit_ascii c) && all_key s

-- `_KEY_RE.match`
abbrev pub is_key : Text → Bool
is_key [] = false
is_key (c ∷ s) = is_key_start c && all_key s

-- `raw.split("=", 1)`, and none without a sign
abbrev pub key_and_value : Text → Option (Text × Text)
key_and_value raw = closing b'=' raw

abbrev pub without_export : Text → Text
without_export raw = elim (behind_prefix (codes "export ") raw) [
  | some rest ↦ lstrip rest
  | none ↦ raw
]

abbrev pub is_comment : Text → Bool
is_comment [] = true
is_comment (c ∷ s) = c == b'#'

-- the process environment
abbrev pub Environ : Type 0
Environ = List (Text × Text)

-- `expand` stands for os.path.expandvars and expanduser, which read the environment of the moment.
abbrev pub with_value :
    (Environ → Text → Text) → Environ → Text → Parsed Text → Parsed (Option (Text × Text))
with_value expand env key (ok value) = ok (some (key, expand env value))
with_value expand env key value_error = value_error

abbrev pub pair_of :
    (Environ → Text → Text) → Environ → Option (Text × Text) → Parsed (Option (Text × Text))
pair_of expand env none = ok none
pair_of expand env (some (key, value)) =
    if is_key (strip key)
    then with_value expand env (strip key) (parse_env_value value)
    else ok none

-- `_parse_env_line`
unfoldable pub parse_env_line :
    (Environ → Text → Text) → Environ → Text → Parsed (Option (Text × Text))
unfolding parse_env_value all_key behind_prefix
parse_env_line expand env line =
    if is_comment (strip line)
    then ok none
    else pair_of expand env (key_and_value (without_export (strip line)))

unfoldable pub getenv : Text → Environ → Option Text
getenv key [] = none
getenv key ((k, v) ∷ rest) = let later = getenv key rest in if text_eq k key then some v else later

-- `if key not in os.environ: os.environ[key] = value`
unfoldable pub set_if_absent : Text → Text → Environ → Environ
unfolding getenv
set_if_absent key value env = elim (getenv key env) [ none ↦ (key, value) ∷ env | some v ↦ env ]

abbrev pub then_lines :
    Environ
    → (Environ → Parsed Unit × Environ)
    → Parsed (Option (Text × Text))
    → Parsed Unit × Environ
then_lines env rest value_error = (value_error, env)
then_lines env rest (ok none) = rest env
then_lines env rest (ok (some (key, value))) = rest (set_if_absent key value env)

-- the loop over the lines, which leaves what it has set where a line raises
unfoldable pub load_lines : (Environ → Text → Text) → List Text → Environ → Parsed Unit × Environ
unfolding parse_env_line set_if_absent
load_lines expand [] env = (ok tt, env)
load_lines expand (l ∷ ls) env =
    then_lines env (λ env'. load_lines expand ls env') (parse_env_line expand env l)

-- The path of a file that was loaded, or that there is none.
abbrev pub with_path : Parsed Unit × Environ → Parsed Bool × Environ
with_path (ok u, env) = (ok true, env)
with_path (value_error, env) = (value_error, env)

-- `load_env_file` on the text of the file, or none where it does not exist
unfoldable pub load_env_file :
    (Environ → Text → Text) → Option Text → Environ → Parsed Bool × Environ
unfolding load_lines split_lines
load_env_file expand none env = (ok false, env)
load_env_file expand (some text) env = with_path (load_lines expand (split_lines text) env)

abbrev pub next_file :
    (Environ → Parsed Bool × Environ) → Parsed Bool × Environ → Parsed Bool × Environ
next_file rest (ok false, env) = rest env
next_file rest (ok true, env) = (ok true, env)
next_file rest (value_error, env) = (value_error, env)

-- the loop of `load_project_env` over the candidates: the texts of the files, in their order
unfoldable pub load_project_env :
    (Environ → Text → Text) → List (Option Text) → Environ → Parsed Bool × Environ
unfolding load_env_file
load_project_env expand [] env = (ok false, env)
load_project_env expand (file ∷ files) env =
    next_file (λ env'. load_project_env expand files env') (load_env_file expand file env)
