-- ===== src/Session/Answer.antt =====
-- Which turn the final answer is taken from.
use mathlib.Core.List.{reverse-append, reverse-cons, append_assoc}
use minirouter.Prelude.{
  ◌≡◌, refl, ◌∙◌, inl, inr, Bool, true, false, not, ◌||◌, none, some, List, [], ◌∷◌, ◌++◌, reverse,
  arith, Bool-cases,
}
use minirouter.Types.{Role, TurnRecord, is_worker, is_verifier}
use minirouter.Session.{first_output, final_answer}

-- Some turn has a role that passes the test.
abbrev pub any_role : (Role → Bool) → List TurnRecord → Bool
any_role test [] = false
any_role test (t ∷ ts) = test t.role || any_role test ts

any_role-append :
    (test : Role → Bool) (xs ys : List TurnRecord)
    → any_role test (xs ++ ys) ≡ (any_role test xs || any_role test ys)
any_role-append test [] ys = refl
any_role-append test (x ∷ xs) ys = ground (arith, any_role-append test xs ys)

any_role-reverse :
    (test : Role → Bool) (xs : List TurnRecord) → any_role test (reverse xs) ≡ any_role test xs
any_role-reverse test [] = refl
any_role-reverse test (x ∷ xs) =
    rw (reverse-cons x xs, any_role-append test (reverse xs) (x ∷ []), any_role-reverse test xs)
      (ground arith)

first_output-append :
    (test : Role → Bool) (xs ys : List TurnRecord)
    → any_role test xs ≡ false
    → first_output test (xs ++ ys) ≡ first_output test ys
unfolding first_output
first_output-append test [] ys h = refl
first_output-append test (x ∷ xs) ys h = elim (Bool-cases (test x.role)) [
  | inl e ↦ absurd (ground arith)
  | inr e ↦ rw e (first_output-append test xs ys (ground arith))
]

first_output-none :
    (test : Role → Bool) (xs : List TurnRecord)
    → any_role test xs ≡ false
    → first_output test xs ≡ none
unfolding first_output
first_output-none test [] h = refl
first_output-none test (x ∷ xs) h = elim (Bool-cases (test x.role)) [
  | inl e ↦ absurd (ground arith)
  | inr e ↦ rw e (first_output-none test xs (ground arith))
]

-- Read from the back, the first turn that passes is the one behind which none does.
first_output-reverse :
    (test : Role → Bool) (before after : List TurnRecord) (t : TurnRecord)
    → test t.role ≡ true
    → any_role test after ≡ false
    → first_output test (reverse (before ++ t ∷ after)) ≡ some t.processed_output
unfolding first_output
first_output-reverse test before after t h k =
    rw
      (
        reverse-append before (t ∷ after),
        reverse-cons t after,
        append_assoc (reverse after) (t ∷ []) (reverse before),
        first_output-append test (reverse after) (t ∷ reverse before)
            (any_role-reverse test after ∙ k),
      )
      (rw h)

-- The final answer is the last Worker's output.
pub final_answer_worker :
    (before after : List TurnRecord) (t : TurnRecord)
    → is_worker t.role ≡ true
    → any_role is_worker after ≡ false
    → final_answer (before ++ t ∷ after) ≡ t.processed_output
unfolding final_answer
final_answer_worker before after t h k = rw (first_output-reverse is_worker before after t h k)

-- With no Worker's turn, the final answer is the last output that is not a Verifier's.
pub final_answer_thinker :
    (before after : List TurnRecord) (t : TurnRecord)
    → any_role is_worker (before ++ t ∷ after) ≡ false
    → is_verifier t.role ≡ false
    → any_role (λ r. not (is_verifier r)) after ≡ false
    → final_answer (before ++ t ∷ after) ≡ t.processed_output
unfolding final_answer
final_answer_thinker before after t n h k = rw (
  first_output-none is_worker (reverse (before ++ t ∷ after))
      (any_role-reverse is_worker (before ++ t ∷ after) ∙ n),
  first_output-reverse (λ r. not (is_verifier r)) before after t (rw h) k,
)

no_worker :
    (ts : List TurnRecord)
    → any_role (λ r. not (is_verifier r)) ts ≡ false
    → any_role is_worker ts ≡ false
no_worker [] h = refl
no_worker (t ∷ ts) h = ground (arith, no_worker ts)

-- With Verifiers' turns only, it is the last output.
pub final_answer_verifier :
    (before : List TurnRecord) (t : TurnRecord)
    → any_role (λ r. not (is_verifier r)) (before ++ t ∷ []) ≡ false
    → final_answer (before ++ t ∷ []) ≡ t.processed_output
unfolding final_answer
final_answer_verifier before t n = rw (
  first_output-none is_worker (reverse (before ++ t ∷ []))
      (any_role-reverse is_worker (before ++ t ∷ []) ∙ no_worker (before ++ t ∷ []) n),
  first_output-none (λ r. not (is_verifier r)) (reverse (before ++ t ∷ []))
      (any_role-reverse (λ r. not (is_verifier r)) (before ++ t ∷ []) ∙ n),
  first_output-reverse (λ r. true) before [] t refl refl,
)
