-- ===== src/Graders/Sandbox/Laws.antt =====
-- What it takes that a candidate passes: each test, in its order and in the world that the tests
-- before it have left.
use mathlib.Core.Path.{subst}
use minirouter.Prelude.{
  zero, suc, ◌≡◌, refl, ap, Bool, true, false, Bool-cases, inl, inr, Option, none, some, List, [],
  ◌∷◌, ◌++◌, Text, codes, ◌&&◌, arith,
}
use minirouter.Prelude.Unicode.{Unicode}
use minirouter.Py.{ℤ, pos, negsuc, Value}
use minirouter.Graders.Sandbox.{
  Builtins, Child, Ending, exited, timed_out, not_started, captured, exec_script_capture,
  exec_script, stdout_matches, functional_harness, Kind, functional, io, assertion, unknown,
  kind_of, run_io, name_or_empty, run_kind, run_one_test, is_blank, then_tests, all_pass,
  run_pass_at_1,
}
use minirouter.Graders.Sandbox.Spec.{
  Readers, Spec, coerce_test_spec, extract_code, graded, check_code,
}

module _ {W : Type 0} (run : Child W) (timeout_s : ℤ) where
  -- The child process ran the script on the input, and exited with code 0 and the output.
  abbrev pub Exits : Text → Text → W → Text → W → Type 0
  Exits script stdin_data w stdout w' =
      run script stdin_data timeout_s w ≡ (exited (pos zero) stdout, w')

  exec_script_capture-Exits :
      (script stdin_data : Text) (w : W) {stdout : Text} {w' : W}
      → exec_script_capture run script stdin_data timeout_s w ≡ ((true, stdout), w')
      → Exits script stdin_data w stdout w'
  unfolding exec_script_capture
  exec_script_capture-Exits script stdin_data w {stdout} {w'} =
      go (run script stdin_data timeout_s w)
    where
      go : (e : Ending × W) → captured e ≡ ((true, stdout), w') → e ≡ (exited (pos zero) stdout, w')
      go (exited (pos zero) out, v) h = cc
      go (exited (pos (suc n)) out, v) h = absurd (ground (arith, ap (λ x. x.0.0) h))
      go (exited (negsuc n) out, v) h = absurd (ground (arith, ap (λ x. x.0.0) h))
      go (timed_out, v) h = absurd (ground (arith, ap (λ x. x.0.0) h))
      go (not_started, v) h = absurd (ground (arith, ap (λ x. x.0.0) h))

  exec_script-Exits :
      (script stdin_data : Text) (w : W) {w' : W}
      → exec_script run script stdin_data timeout_s w ≡ (true, w')
      → (stdout : Text) × Exits script stdin_data w stdout w'
  unfolding exec_script
  exec_script-Exits script stdin_data w {w'} h =
      let r = exec_script_capture run script stdin_data timeout_s w in
      (r.0.1, exec_script_capture-Exits script stdin_data w (exact r h))
    where
      exact :
          (r : (Bool × Text) × W)
          → ◌≡◌ {A = Bool × W} (r.0.0, r.1) (true, w')
          → r ≡ ((true, r.0.1), w')
      exact ((x, out), v) h = cc

  run_io-Exits :
      (code stdin_data expected : Text) (w : W) {w' : W}
      → run_io run code stdin_data expected timeout_s w ≡ (true, w')
      → (stdout : Text) × Exits code stdin_data w stdout w'
        × (stdout_matches stdout expected ≡ true)
  run_io-Exits code stdin_data expected w {w'} h =
      let r = exec_script_capture run code stdin_data timeout_s w in
      let (e, m) = exact r h in (r.0.1, exec_script_capture-Exits code stdin_data w e, m)
    where
      exact :
          (r : (Bool × Text) × W)
          → ◌≡◌ {A = Bool × W} (r.0.0 && stdout_matches r.0.1 expected, r.1) (true, w')
          → (r ≡ ((true, r.0.1), w')) × (stdout_matches r.0.1 expected ≡ true)
      exact ((true, out), v) h = (cc, cc)
      exact ((false, out), v) h = absurd (ground (arith, ap (λ x. x.0) h))

module _ {W : Type 0} (u : Unicode) (b : Builtins) (run : Child W) (code : Text) (timeout_s : ℤ)
    (fn_name : Option Text) where
  -- A test is passed from a world to the next: a functional one and an assertion where the code,
  -- an empty line and the harness or the block exit with 0 on no input; one on the standard
  -- streams where the code itself exits with 0 on the input and what it prints matches.
  abbrev pub TestPassed : Kind → W → W → Type 0
  TestPassed (functional stdin_data expected) w w' =
      (stdout : Text) × Exits run timeout_s
        (code ++ (codes "\n\n" ++ functional_harness b (name_or_empty fn_name) stdin_data expected))
        [] w stdout w'
  TestPassed (io stdin_data expected) w w' =
      (stdout : Text) × Exits run timeout_s code stdin_data w stdout w'
      × (stdout_matches stdout expected ≡ true)
  TestPassed (assertion block) w w' =
      (stdout : Text) × Exits run timeout_s (code ++ (codes "\n\n" ++ (block ++ codes "\n"))) [] w
        stdout w'
  TestPassed unknown w w' = ⊥

  -- Every test of the list is passed, each in the world that the one before it has left.
  pub data AllPassed : List Value → W → W → Type 0 where
    done : {w : W} → AllPassed [] w w
    next :
        {test : Value} {tests : List Value} {w w' w'' : W}
        → TestPassed (kind_of u b test) w w'
        → AllPassed tests w' w''
        → AllPassed (test ∷ tests) w w''

  run_kind-TestPassed :
      (k : Kind) (w : W) {w' : W}
      → run_kind b run code timeout_s fn_name k w ≡ (true, w')
      → TestPassed k w w'
  run_kind-TestPassed (functional stdin_data expected) w h =
      exec_script-Exits run timeout_s _ [] w h
  run_kind-TestPassed (io stdin_data expected) w h =
      run_io-Exits run timeout_s code stdin_data expected w h
  run_kind-TestPassed (assertion block) w h = exec_script-Exits run timeout_s _ [] w h
  run_kind-TestPassed unknown w h = absurd (ground (arith, ap (λ x. x.0) h))

  run_one_test-TestPassed :
      (test : Value) (w : W) {w' : W}
      → run_one_test u b run code test timeout_s fn_name w ≡ (true, w')
      → TestPassed (kind_of u b test) w w'
  unfolding run_one_test
  run_one_test-TestPassed test w h = run_kind-TestPassed (kind_of u b test) w h

  all_pass-AllPassed :
      (tests : List Value) (w : W) {w' : W}
      → all_pass u b run code tests timeout_s fn_name w ≡ (true, w')
      → AllPassed tests w w'
  unfolding all_pass
  all_pass-AllPassed [] w {w'} h = subst (AllPassed [] w) (ap (λ x. x.1) h) done
  all_pass-AllPassed (test ∷ tests) w {w'} h =
      go (run_one_test u b run code test timeout_s fn_name w) refl (λ v. all_pass-AllPassed tests v)
        h
    where
      go :
          (r : Bool × W)
          → run_one_test u b run code test timeout_s fn_name w ≡ r
          → ((v : W)
              → all_pass u b run code tests timeout_s fn_name v ≡ (true, w')
              → AllPassed tests v w')
          → then_tests (λ v. all_pass u b run code tests timeout_s fn_name v) r ≡ (true, w')
          → AllPassed (test ∷ tests) w w'
      go (true, v) e rest h = next (run_one_test-TestPassed test w e) (rest v h)
      go (false, v) e rest h = absurd (ground (arith, ap (λ x. x.0) h))

  run_pass_at_1-AllPassed :
      (tests : List Value) (w : W) {w' : W}
      → run_pass_at_1 u b run code tests timeout_s fn_name w ≡ (true, w')
      → ¬ tests ≡ [] × AllPassed tests w w'
  unfolding run_pass_at_1
  run_pass_at_1-AllPassed [] w h = absurd (ground (arith, ap (λ x. x.0) h))
  run_pass_at_1-AllPassed (test ∷ tests) w h = elim (Bool-cases (is_blank code)) [
    | inl e ↦ absurd (ground (arith, ap (λ x. x.0) (rw e at h)))
    | inr e ↦ ((λ p. cc), all_pass-AllPassed (test ∷ tests) w (rw e at h))
  ]

module _ {W : Type 0} (u : Unicode) (r : Readers) (b : Builtins) (run : Child W) (candidate : Text)
    (reference : Value) where
  -- The specification is read and lists tests, and the code of the candidate, which is not blank,
  -- passes all of them.
  abbrev pub AreAllPassed : W → W → Type 0
  AreAllPassed w w' =
      (spec : Spec) × (coerce_test_spec r b reference ≡ some spec)
      × (is_blank (extract_code candidate) ≡ false)
      × (¬ spec.0 ≡ [])
      × AllPassed u b run (extract_code candidate) spec.1 spec.2 spec.0 w w'

  -- A candidate is judged correct only where its code is not blank, the specification is read and
  -- lists at least one test, and every test of it is passed, in the order of the list and each in
  -- the world that the one before it has left: a child process ran exactly the code and the block
  -- or harness of the test, or the code on the input of the test, and exited with 0, and what it
  -- printed matches where the test says so. A crash, a timeout or a start that fails, in any test,
  -- never passes.
  pub check_code-AreAllPassed :
      (w : W) {w' : W}
      → check_code u r b run candidate reference w ≡ (some true, w')
      → AreAllPassed w w'
  unfolding check_code
  check_code-AreAllPassed w {w'} h = elim (Bool-cases (is_blank (extract_code candidate))) [
    | inl e ↦ absurd (wrong (rw e at h))
    | inr e ↦ go e (coerce_test_spec r b reference) refl (rw e at h)
  ]
    where
      wrong : {v : W} → ◌≡◌ {A = Option Bool × W} (some false, v) (some true, w') → ⊥
      wrong p = ground (arith, ap (λ x. x.0) p)

      go :
          is_blank (extract_code candidate) ≡ false
          → (o : Option Spec) → coerce_test_spec r b reference ≡ o
          → graded u b run (extract_code candidate) o w ≡ (some true, w')
          → AreAllPassed w w'
      go e none c p = absurd (ground (arith, ap (λ x. x.0) p))
      go e (some s) c p =
          let (filled, all) =
            run_pass_at_1-AllPassed u b run (extract_code candidate) s.1 s.2 s.0 w (inside _ p) in
          (s, c, e, filled, all)
        where
          inside :
              (x : Bool × W)
              → ◌≡◌ {A = Option Bool × W} (some x.0, x.1) (some true, w')
              → x ≡ (true, w')
          inside (y, v) q = cc
