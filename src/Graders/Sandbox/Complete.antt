-- ===== src/Graders/Sandbox/Complete.antt =====
-- A candidate that passes every test is judged correct.
use minirouter.Prelude.{◌≡◌, refl, ap, Bool, true, false, Option, some, List, [], ◌∷◌, Text}
use minirouter.Prelude.Unicode.{Unicode}
use minirouter.Py.{ℤ, Value}
use minirouter.Graders.Sandbox.{
  Builtins, Child, captured, exec_script_capture, exec_script, stdout_matches, Kind, functional, io,
  assertion, unknown, kind_of, run_io, run_kind, run_one_test, is_blank, all_pass, run_pass_at_1,
}
use minirouter.Graders.Sandbox.Spec.{Readers, extract_code, check_code}
use minirouter.Graders.Sandbox.Laws.{Exits, TestPassed, AllPassed, done, next, AreAllPassed}

module _ {W : Type 0} (run : Child W) (timeout_s : ℤ) where
  captures :
      (script stdin_data : Text) (w : W) {stdout : Text} {w' : W}
      → Exits run timeout_s script stdin_data w stdout w'
      → exec_script_capture run script stdin_data timeout_s w ≡ ((true, stdout), w')
  unfolding exec_script_capture
  captures script stdin_data w e = ap captured e

  executes :
      (script stdin_data : Text) (w : W) {stdout : Text} {w' : W}
      → Exits run timeout_s script stdin_data w stdout w'
      → exec_script run script stdin_data timeout_s w ≡ (true, w')
  unfolding exec_script
  executes script stdin_data w e =
      ap (λ (r : (Bool × Text) × W). (r.0.0, r.1)) (captures script stdin_data w e)

  matches_output :
      (code stdin_data expected : Text) (w : W) {stdout : Text} {w' : W}
      → Exits run timeout_s code stdin_data w stdout w'
      → stdout_matches stdout expected ≡ true
      → run_io run code stdin_data expected timeout_s w ≡ (true, w')
  matches_output code stdin_data expected w e m = rw (captures code stdin_data w e, m) refl

module _ {W : Type 0} (u : Unicode) (b : Builtins) (run : Child W) (code : Text) (timeout_s : ℤ)
    (fn_name : Option Text) where
  kind_passes :
      (k : Kind) (w : W) {w' : W}
      → TestPassed u b run code timeout_s fn_name k w w'
      → run_kind b run code timeout_s fn_name k w ≡ (true, w')
  kind_passes (functional stdin_data expected) w (stdout, e) = executes run timeout_s _ [] w e
  kind_passes (io stdin_data expected) w (stdout, e, m) =
      matches_output run timeout_s code stdin_data expected w e m
  kind_passes (assertion block) w (stdout, e) = executes run timeout_s _ [] w e
  kind_passes unknown w p = absurd p

  all_pass_of :
      {tests : List Value} {w w' : W}
      → AllPassed u b run code timeout_s fn_name tests w w'
      → all_pass u b run code tests timeout_s fn_name w ≡ (true, w')
  unfolding all_pass run_one_test
  all_pass_of done = refl
  all_pass_of (next {test = test} {w = w} p ps) =
      rw (kind_passes (kind_of u b test) w p) (all_pass_of ps)

  run_pass_at_1_of :
      (tests : List Value) {w w' : W}
      → ¬ tests ≡ []
      → is_blank code ≡ false
      → AllPassed u b run code timeout_s fn_name tests w w'
      → run_pass_at_1 u b run code tests timeout_s fn_name w ≡ (true, w')
  unfolding run_pass_at_1
  run_pass_at_1_of [] filled e ps = absurd (filled refl)
  run_pass_at_1_of (t ∷ ts) filled e ps = rw e (all_pass_of ps)

-- A candidate whose code is not blank and passes every test of a specification that lists at least
-- one, in the order of the list and each in the world that the one before it has left, is judged
-- correct, in the world that the last test leaves.
pub check_code_complete :
    {W : Type 0} (u : Unicode) (r : Readers) (b : Builtins) (run : Child W) (candidate : Text)
    (reference : Value) (w : W) {w' : W}
    → AreAllPassed u r b run candidate reference w w'
    → check_code u r b run candidate reference w ≡ (some true, w')
unfolding check_code
check_code_complete u r b run candidate reference w (spec, read, filled_code, filled, all) =
    rw
      (
        filled_code,
        read,
        run_pass_at_1_of u b run (extract_code candidate) spec.1 spec.2 spec.0 filled filled_code
            all,
      )
      refl
