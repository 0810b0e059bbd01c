-- ===== src/Graders/Sandbox/Spec.antt =====
-- src/trinity/orchestration/reward.py: `_coerce_test_spec`, `extract_code` and `_check_code`.
use minirouter.Prelude.{
  ℕ, zero, suc, length, Bool, true, false, ◌||◌, Option, none, some, List, [], ◌∷◌, reverse, Text,
  codes, strip, ◌==◌, if◌then◌else◌,
}
use minirouter.Prelude.Unicode.{Unicode}
use minirouter.Py.{
  ℤ, pos, Value, nothing, truth, int, str, list, tuple, dict, other, Items, nil, cons, end, field,
}
use minirouter.Roles.Verifier.{literal}
use minirouter.Graders.Scan.{bind}
use minirouter.Graders.Json.{Loads, fence}
use minirouter.Graders.Boxed.{behind_prefix, last}
use minirouter.Graders.Sandbox.{Builtins, Child, dict_get, get_or_else, is_blank, run_pass_at_1}

-- The builtins that only the specification of the tests needs.
pub record Readers : Type 0 where
  pub loads : Loads
  -- int(value): none where it raises
  pub int_of : Value → Option ℤ
  -- the truth of an object of another class
  pub other_truth : Text → Bool

abbrev pub is_true : Readers → Value → Bool
is_true r nothing = false
is_true r (truth b) = b
is_true r (int (pos zero)) = false
is_true r (int _) = true
is_true r (str []) = false
is_true r (str (c ∷ s)) = true
is_true r (list nil) = false
is_true r (list (cons x xs)) = true
is_true r (tuple nil) = false
is_true r (tuple (cons x xs)) = true
is_true r (dict end) = false
is_true r (dict (field k v fs)) = true
is_true r (other t) = r.other_truth t

abbrev pub items : Items → List Value
items nil = []
items (cons x xs) = x ∷ items xs

abbrev pub tests_of : Value → List Value
tests_of nothing = []
tests_of (list xs) = items xs
tests_of v = v ∷ []

-- The tests, the timeout and the name of the function.
abbrev pub Spec : Type 0
Spec = List Value × ℤ × Option Text

abbrev pub name_of : Readers → Builtins → Option Value → Option Text
name_of r b none = none
name_of r b (some v) = if is_true r v then some (b.str_of v) else none

-- none where `int` raises
unfoldable pub spec_of : Readers → Builtins → Value → Option Spec
unfolding dict_get
spec_of r b (dict fields) =
    bind (r.int_of (get_or_else (dict_get (codes "timeout_s") fields) (int (pos 10)))) λ timeout_s.
      some (
        tests_of (get_or_else (dict_get (codes "tests") fields) (list nil)),
        timeout_s,
        name_of r b (dict_get (codes "fn_name") fields),
      )
spec_of r b v = some (tests_of v, pos 10, none)

-- `_coerce_test_spec`
unfoldable pub coerce_test_spec : Readers → Builtins → Value → Option Spec
unfolding spec_of
coerce_test_spec r b (str s) = elim (r.loads s) [
  | some v ↦ spec_of r b v
  | none ↦ spec_of r b (list (cons (str s) nil))
]
coerce_test_spec r b v = spec_of r b v

-- The text up to the next fence, and the text behind it.
unfoldable pub until_fence : Text → Option (Text × Text)
unfolding behind_prefix
until_fence [] = none
until_fence (c ∷ s) =
    let later = until_fence s in
    elim (behind_prefix fence (c ∷ s)) [
      | some rest ↦ some ([], rest)
      | none ↦ elim later [ none ↦ none | some (body, rest) ↦ some (c ∷ body, rest) ]
    ]

unfoldable pub skip_tabs : Text → Text
skip_tabs [] = []
skip_tabs (c ∷ s) = if (c == b' ') || (c == b'\t') then skip_tabs s else c ∷ s

-- `[ \t]*\r?\n`
abbrev pub line_end : Text → Option Text
line_end s = elim (skip_tabs s) [
  | [] ↦ none
  | c ∷ t ↦ if c == b'\n' then some t else if c == b'\r' then behind_prefix (codes "\n") t else none
]

abbrev pub after_language : Text → Text → Option Text
after_language word s = bind (literal word s) line_end

-- `[ \t]*(?:python|py|python3)?[ \t]*\r?\n`: the alternatives in their order, and then none
unfoldable pub fence_line : Text → Option Text
unfolding skip_tabs behind_prefix
fence_line s =
    let t = skip_tabs s in
    elim (after_language (codes "PYTHON") t) [
      | some rest ↦ some rest
      | none ↦ elim (after_language (codes "PY") t) [
        | some rest ↦ some rest
        | none ↦ elim (after_language (codes "PYTHON3") t) [
          | some rest ↦ some rest
          | none ↦ line_end t
        ]
      ]
    ]

-- A block of the pattern at this place: its body and the text behind it.
unfoldable pub block_at : Text → Option (Text × Text)
unfolding fence_line until_fence
block_at s = bind (bind (behind_prefix fence s) fence_line) until_fence

-- `_FENCE_RE.findall`. The fuel bounds the steps, each of which takes a character or a block.
unfoldable pub code_blocks : ℕ → Text → List Text
unfolding block_at
code_blocks zero s = []
code_blocks (suc n) [] = []
code_blocks (suc n) (c ∷ s) = elim (block_at (c ∷ s)) [
  | some (body, rest) ↦ body ∷ code_blocks n rest
  | none ↦ code_blocks n s
]

unfoldable pub strip_newlines_front : Text → Text
strip_newlines_front [] = []
strip_newlines_front (c ∷ s) = if c == b'\n' then strip_newlines_front s else c ∷ s

abbrev pub strip_newlines : Text → Text
strip_newlines s = reverse (strip_newlines_front (reverse (strip_newlines_front s)))

unfoldable pub extract_code : Text → Text
unfolding code_blocks strip_newlines_front
extract_code text = elim (last (code_blocks (length text) text)) [
  | some block ↦ strip_newlines block
  | none ↦ strip text
]

abbrev pub graded :
    {W : Type 0} → Unicode → Builtins → Child W → Text → Option Spec → W → Option Bool × W
graded u b run code none w = (none, w)
graded u b run code (some (tests, timeout_s, fn_name)) w =
    let r = run_pass_at_1 u b run code tests timeout_s fn_name w in (some r.0, r.1)

-- `_check_code`: none where the specification raises
unfoldable pub check_code :
    {W : Type 0} → Unicode → Readers → Builtins → Child W → Text → Value → W → Option Bool × W
unfolding extract_code coerce_test_spec run_pass_at_1
check_code u r b run candidate reference w =
    let code = extract_code candidate in
    if is_blank code
    then (some false, w)
    else graded u b run code (coerce_test_spec r b reference) w
