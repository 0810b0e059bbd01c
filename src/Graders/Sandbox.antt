-- ===== src/Graders/Sandbox.antt =====
-- src/trinity/orchestration/reward.py: `_coerce_test_spec`, `run_pass_at_1` and what they call.
-- Python's `str`, `repr`, `int` and `json.loads` on the values are parameters, and so is the child
-- process: a service over a world, so that two runs of one script may end differently.
pub mod Spec
pub mod Laws
pub mod Complete
mod Tests
use minirouter.Prelude.{
  ℕ, zero, suc, Bool, true, false, not, ◌&&◌, ◌||◌, Option, none, some, List, [], ◌∷◌, ◌++◌, map,
  Text, codes, text_eq, strip, rstrip, join, ◌==◌, if◌then◌else◌,
}
use minirouter.Prelude.Unicode.{Unicode, lower}
use minirouter.Py.{
  ℤ, pos, Value, nothing, str, list, tuple, dict, Items, nil, cons, Fields, end, field,
}

-- how the child process ends: with its return code and output, at the timeout, or not started
pub data Ending : Type 0 where
  exited : ℤ → Text → Ending
  timed_out : Ending
  not_started : Ending

pub record Builtins : Type 0 where
  pub str_of : Value → Text
  pub repr_of : Text → Text

-- the child process on a script, its standard input and the timeout
abbrev pub Child : Type 0 → Type 0
Child W = Text → Text → ℤ → W → Ending × W

abbrev pub zero_code : ℤ → Bool
zero_code (pos zero) = true
zero_code _ = false

abbrev pub captured : {W : Type 0} → Ending × W → (Bool × Text) × W
captured (exited code stdout, w) = ((zero_code code, stdout), w)
captured (timed_out, w) = ((false, []), w)
captured (not_started, w) = ((false, []), w)

-- `_exec_script_capture`
unfoldable pub exec_script_capture :
    {W : Type 0} → Child W → Text → Text → ℤ → W → (Bool × Text) × W
exec_script_capture run script stdin_data timeout_s w = captured (run script stdin_data timeout_s w)

-- `_exec_script`
unfoldable pub exec_script : {W : Type 0} → Child W → Text → Text → ℤ → W → Bool × W
unfolding exec_script_capture
exec_script run script stdin_data timeout_s w =
    let r = exec_script_capture run script stdin_data timeout_s w in (r.0.0, r.1)

-- `dict.get` on a key that is a text
unfoldable pub dict_get : Text → Fields → Option Value
dict_get key end = none
dict_get key (field (str k) v rest) =
    let later = dict_get key rest in if text_eq k key then some v else later
dict_get key (field _ v rest) = dict_get key rest

abbrev pub get_or_else : Option Value → Value → Value
get_or_else none v = v
get_or_else (some a) v = a

abbrev pub has {ℓ} : {A : Type ℓ} → Option A → Bool
has none = false
has (some a) = true

-- `"stdin" in test or "input" in test or "expected_stdout" in test or "output" in test`
unfoldable pub has_io : Fields → Bool
unfolding dict_get
has_io test =
    has (dict_get (codes "stdin") test)
    || (has (dict_get (codes "input") test)
        || (has (dict_get (codes "expected_stdout") test) || has (dict_get (codes "output") test)))

-- `test.get(first, test.get(second, ""))`
abbrev pub get_either : Text → Text → Fields → Value
get_either first second test =
    get_or_else (dict_get first test) (get_or_else (dict_get second test) (str []))

abbrev pub stdin_of : Builtins → Fields → Text
stdin_of b test = b.str_of (get_either (codes "stdin") (codes "input") test)

abbrev pub stdout_of : Builtins → Fields → Text
stdout_of b test = b.str_of (get_either (codes "expected_stdout") (codes "output") test)

-- `s.replace("\r\n", "\n").split("\n")`, each line without its trailing blanks
unfoldable pub crlf_to_lf : Text → Text
crlf_to_lf [] = []
crlf_to_lf (c ∷ s) =
    let rest = crlf_to_lf s in
    elim s [ [] ↦ c ∷ rest | d ∷ t ↦ if (c == b'\r') && (d == b'\n') then rest else c ∷ rest ]

abbrev pub onto_first : ℕ → List Text → List Text
onto_first c [] = (c ∷ []) ∷ []
onto_first c (l ∷ ls) = (c ∷ l) ∷ ls

-- `s.split("\n")`
unfoldable pub split_newlines : Text → List Text
split_newlines [] = [] ∷ []
split_newlines (c ∷ s) =
    let rest = split_newlines s in if c == b'\n' then [] ∷ rest else onto_first c rest

abbrev pub output_lines : Text → List Text
output_lines s = map rstrip (split_newlines (rstrip (crlf_to_lf s)))

unfoldable pub lines_eq : List Text → List Text → Bool
lines_eq [] [] = true
lines_eq (a ∷ got) (b ∷ expected) = text_eq a b && lines_eq got expected
lines_eq _ _ = false

-- `_stdout_matches`
unfoldable pub stdout_matches : Text → Text → Bool
unfolding crlf_to_lf split_newlines lines_eq
stdout_matches got expected = lines_eq (output_lines got) (output_lines expected)

-- `_functional_harness`
unfoldable pub functional_harness : Builtins → Text → Text → Text → Text
functional_harness b fn_name stdin_data expected_output =
    join (codes "\n") (
      codes "import json as _json"
      ∷ codes "def _norm(_x):"
      ∷ codes "    if isinstance(_x, tuple):"
      ∷ codes "        _x = list(_x)"
      ∷ codes "    if isinstance(_x, list):"
      ∷ codes "        return [_norm(_e) for _e in _x]"
      ∷ codes "    if isinstance(_x, dict):"
      ∷ codes "        return {_k: _norm(_v) for _k, _v in _x.items()}"
      ∷ codes "    return _x"
      ∷ (codes "_fn_name = " ++ b.repr_of fn_name)
      ∷ (codes "_raw_in = " ++ b.repr_of stdin_data)
      ∷ (codes "_raw_out = " ++ b.repr_of expected_output)
      ∷ codes "_args = [_json.loads(_ln) for _ln in _raw_in.split(chr(10)) if _ln.strip() != '']"
      ∷ codes "_obj = Solution() if 'Solution' in dir() else None"
      ∷ codes "if _obj is not None and hasattr(_obj, _fn_name):"
      ∷ codes "    _target = getattr(_obj, _fn_name)"
      ∷ codes "else:"
      ∷ codes "    _target = globals()[_fn_name]"
      ∷ codes "_result = _norm(_target(*_args))"
      ∷ codes "try:"
      ∷ codes "    _expected = _norm(_json.loads(_raw_out))"
      ∷ codes "except Exception:"
      ∷ codes "    _expected = _raw_out.strip()"
      ∷ codes "    _result = _result if isinstance(_result, str) else _json.dumps(_result)"
      ∷ codes "    _result = _result.strip()"
      ∷ codes "assert _result == _expected"
      ∷ [])
    ++ codes "\n"

-- the script of a candidate and what is put behind it
abbrev pub script_with : Text → Text → Text
script_with code tail = code ++ (codes "\n\n" ++ tail)

-- What `_run_one_test` reads a test as.
pub data Kind : Type 0 where
  functional : Text → Text → Kind
  io : Text → Text → Kind
  assertion : Text → Kind
  unknown : Kind

-- the tests that are dictionaries
unfoldable pub kind_of_dict : Unicode → Builtins → Fields → Kind
unfolding has_io
kind_of_dict u b test =
    let ttype =
      lower u (strip (b.str_of (get_or_else (dict_get (codes "testtype") test) (str [])))) in
    if has_io test
    then if text_eq ttype (codes "functional")
      then functional (stdin_of b test) (stdout_of b test)
      else io (stdin_of b test) (stdout_of b test)
    else elim (dict_get (codes "assert") test) [
      | some v ↦ assertion (b.str_of v)
      | none ↦ assertion (b.str_of (get_either (codes "test") (codes "code") test))
    ]

abbrev pub kind_of_items : Builtins → Items → Kind
kind_of_items b (cons x (cons y nil)) = io (b.str_of x) (b.str_of y)
kind_of_items b _ = unknown

unfoldable pub kind_of : Unicode → Builtins → Value → Kind
unfolding kind_of_dict
kind_of u b (dict test) = kind_of_dict u b test
kind_of u b (tuple xs) = kind_of_items b xs
kind_of u b (list xs) = kind_of_items b xs
kind_of u b (str s) = assertion s
kind_of u b _ = unknown

-- a stdin and stdout test
abbrev pub run_io : {W : Type 0} → Child W → Text → Text → Text → ℤ → W → Bool × W
run_io run code stdin_data expected timeout_s w =
    let r = exec_script_capture run code stdin_data timeout_s w in
    (r.0.0 && stdout_matches r.0.1 expected, r.1)

abbrev pub name_or_empty : Option Text → Text
name_or_empty none = []
name_or_empty (some n) = n

-- a test of each kind
abbrev pub run_kind :
    {W : Type 0} → Builtins → Child W → Text → ℤ → Option Text → Kind → W → Bool × W
run_kind b run code timeout_s fn_name (functional stdin_data expected) w =
    exec_script run
      (script_with code (functional_harness b (name_or_empty fn_name) stdin_data expected)) []
      timeout_s w
run_kind b run code timeout_s fn_name (io stdin_data expected) w =
    run_io run code stdin_data expected timeout_s w
run_kind b run code timeout_s fn_name (assertion block) w =
    exec_script run (script_with code (block ++ codes "\n")) [] timeout_s w
run_kind b run code timeout_s fn_name unknown w = (false, w)

-- `_run_one_test`
unfoldable pub run_one_test :
    {W : Type 0} → Unicode → Builtins → Child W → Text → Value → ℤ → Option Text → W → Bool × W
unfolding kind_of exec_script exec_script_capture stdout_matches functional_harness
run_one_test u b run code test timeout_s fn_name w =
    run_kind b run code timeout_s fn_name (kind_of u b test) w

abbrev pub is_blank : Text → Bool
is_blank code = elim (strip code) [ [] ↦ true | c ∷ s ↦ false ]

abbrev pub then_tests : {W : Type 0} → (W → Bool × W) → Bool × W → Bool × W
then_tests rest (true, w) = rest w
then_tests rest (false, w) = (false, w)

-- the loop over the tests, which stops at the first that fails
unfoldable pub all_pass :
    {W : Type 0} → Unicode → Builtins → Child W → Text → List Value → ℤ → Option Text → W → Bool × W
unfolding run_one_test
all_pass u b run code [] timeout_s fn_name w = (true, w)
all_pass u b run code (test ∷ tests) timeout_s fn_name w =
    then_tests (λ w'. all_pass u b run code tests timeout_s fn_name w')
      (run_one_test u b run code test timeout_s fn_name w)

unfoldable pub run_pass_at_1 :
    {W : Type 0} → Unicode → Builtins → Child W → Text → List Value → ℤ → Option Text → W → Bool × W
unfolding all_pass
run_pass_at_1 u b run code [] timeout_s fn_name w = (false, w)
run_pass_at_1 u b run code (test ∷ tests) timeout_s fn_name w =
    if is_blank code then (false, w) else all_pass u b run code (test ∷ tests) timeout_s fn_name w
