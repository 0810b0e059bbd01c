-- ===== src/Graders/Sandbox/Tests.antt =====
-- Runs of the grader of code, with a child process that prints a fixed output.
use minirouter.Prelude.{
  ℕ, ◌≡◌, refl, ◌+◌, ◌==◌, true, false, none, some, [], ◌∷◌, Text, codes, text_eq, is_space, rstrip,
  strip, zero, if◌then◌else◌,
}
use minirouter.Prelude.Unicode.{plain, lower}
use minirouter.Py.{pos, Value, str, list, tuple, dict, nil, cons, end, field}
use minirouter.Roles.Verifier.{literal}
use minirouter.Graders.Sandbox.{
  Builtins, Child, exited, timed_out, stdout_matches, kind_of, functional_harness,
}
use minirouter.Graders.Sandbox.Spec.{Readers, coerce_test_spec, extract_code, check_code}
use minirouter.Graders.Sandbox.Laws.{done, next, AreAllPassed, check_code-AreAllPassed}
use minirouter.Graders.Sandbox.Complete.{check_code_complete}

abbrev text_of : Value → Text
text_of (str s) = s
text_of v = []

-- A script of two characters prints 3 and a new line; any other passes with no output.
abbrev printing : Builtins
printing = record { str_of = text_of; repr_of = λ t. t }

-- The world counts the runs.
abbrev child : Child ℕ
child script stdin_data timeout_s w = (
  if text_eq script (codes "p3")
      then exited (pos zero) (codes "3 \r\n\n")
      else exited (pos zero) [],
  w + 1,
)

-- A child process that hangs from its second run on.
abbrev hanging : Child ℕ
hanging script stdin_data timeout_s w =
    (if w == 0 then exited (pos zero) (codes "3") else timed_out, w + 1)

abbrev readers : Readers
readers = record { loads = λ s. none; int_of = λ v. some (pos 10); other_truth = λ t. true }

abbrev io_test : Value
io_test = tuple (cons (str []) (cons (str (codes "3")) nil))

abbrev assert_test : Value
assert_test = dict (field (str (codes "assert")) (str (codes "assert True")) end)

trailing_blanks : stdout_matches (codes "3 \r\n4\n\n") (codes "3\n4") ≡ true
unfolding stdout_matches rstrip is_space text_eq
trailing_blanks = refl

other_output : stdout_matches (codes "3\n\n4") (codes "3\n4") ≡ false
unfolding stdout_matches rstrip is_space text_eq
other_output = refl

last_block : extract_code (codes "a ```py\nx\n``` b ```Python\ny\n```") ≡ codes "y"
unfolding extract_code strip literal
last_block = refl

no_block : extract_code (codes " x = 1 ") ≡ codes "x = 1"
unfolding extract_code strip literal
no_block = refl

abbrev shown : Text
shown = codes "```python\np3\n```"

abbrev both : Value
both = list (cons io_test (cons assert_test nil))

passing : check_code plain readers printing child shown both 0 ≡ (some true, 2)
unfolding check_code strip literal is_space text_eq lower rstrip
passing = refl

no_tests : check_code plain readers printing child shown (list nil) 0 ≡ (some false, 0)
unfolding check_code strip literal is_space text_eq lower rstrip
no_tests = refl

second_hangs : check_code plain readers printing hanging shown both 0 ≡ (some false, 2)
unfolding check_code strip literal is_space text_eq lower rstrip
second_hangs = refl

check_code-AreAllPassed_example : AreAllPassed plain readers printing child shown both 0 2
check_code-AreAllPassed_example =
    check_code-AreAllPassed plain readers printing child shown both 0 passing

both_pass : AreAllPassed plain readers printing child shown both 0 2
unfolding coerce_test_spec extract_code kind_of functional_harness stdout_matches strip literal
    is_space text_eq lower rstrip
both_pass = (
  (io_test ∷ assert_test ∷ [], pos 10, none),
  refl,
  refl,
  (λ p. cc),
  next (codes "3 \r\n\n", refl, refl) (next ([], refl) done),
)

check_code_complete_example : check_code plain readers printing child shown both 0 ≡ (some true, 2)
check_code_complete_example =
    check_code_complete plain readers printing child shown both 0 both_pass
