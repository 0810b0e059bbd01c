-- ===== src/Validator/Claim/Next.antt =====
-- What the chosen job is among the rows of the table, without the tests of the code.
use minirouter.Prelude.{
  ℕ, zero, suc, ◌+◌, ◌≤◌, ◌≡◌, refl, ap, ◌∙◌, Bool, true, false, not, ◌&&◌, ◌||◌, Option, none,
  some, List, [], ◌∷◌, arith, inl, inr, ◌⊎◌, Text, codes, text_eq, get_elem?, ltb, Bool-cases,
}
use minirouter.Py.{ℤ, pos, negsuc, ◌<ℤ◌, both_pos, across, both_neg}
use minirouter.Validator.Queue.{
  JobQueue, Status, queued, running, completed, failed, cancelled, is_queued,
}
use minirouter.Validator.Queue.Keys.{text_eq_sound, text_eq_of, tests_true}
use minirouter.Validator.Queue.Jobs.{Submission}
use minirouter.Validator.Claim.{
  github_pr_exists, passes_review, is_eligible, ltz, lex, precedes, next_job,
}
use minirouter.Validator.Claim.Order.{IsOrder}
use minirouter.Validator.Claim.Choice.{next_job-IsBest}

-- No row of the submissions says that this one comes from a pull request.
abbrev pub IsNoPullRequest : List Submission → Text → Type 0
IsNoPullRequest submissions sid =
    (i : ℕ) (s : Submission)
    → get_elem? submissions i ≡ some s
    → s.id ≡ sid
    → ¬ s.source ≡ codes "github_pr"

-- The review lets the job through: it is enabled, or the job is not that of a pull request.
abbrev pub IsReviewed : Bool → List Submission → Option Text → Type 0
IsReviewed enabled submissions none = Unit
IsReviewed enabled submissions (some sid) = (enabled ≡ true) ⊎ IsNoPullRequest submissions sid

-- `best` stays in front of `job`: by a higher priority; by an earlier creation at the same
-- priority; or at the same priority and creation, where the id of `job` is not in front.
abbrev pub IsInFront : (Text → Text → Bool) → JobQueue → JobQueue → Type 0
IsInFront id_before best job =
    (job.priority <ℤ best.priority)
    ⊎ ((job.priority ≡ best.priority)
        × ((best.created_at + 1 ≤ job.created_at)
            ⊎ ((job.created_at ≡ best.created_at) × (id_before job.id best.id ≡ false))))

tests_false : (a b : Bool) → (a || b) ≡ false → (a ≡ false) × (b ≡ false)
tests_false true b h = absurd (ground arith)
tests_false false b h = (refl, h)

both_true : (a b : Bool) → a ≡ true → b ≡ true → (a && b) ≡ true
both_true true b h k = k
both_true false b h k = h

github_pr_exists-no :
    (submissions : List Submission) (sid : Text)
    → github_pr_exists submissions sid ≡ false
    → IsNoPullRequest submissions sid
unfolding github_pr_exists
github_pr_exists-no [] sid h i s e = λ a b. cc
github_pr_exists-no (x ∷ xs) sid h zero s e = λ a b.
    let x_source = ap (λ y. y.source) (inside e) ∙ b in
    let x_id = ap (λ y. y.id) (inside e) ∙ a in
    ground (
      arith,
      tests_false (text_eq x.id sid && text_eq x.source (codes "github_pr"))
          (github_pr_exists xs sid) h,
      text_eq_of x_id,
      text_eq_of x_source,
    )
  where
    inside : some x ≡ some s → x ≡ s
    inside p = cc
github_pr_exists-no (x ∷ xs) sid h (suc i) s e =
    github_pr_exists-no xs sid
      (tests_false (text_eq x.id sid && text_eq x.source (codes "github_pr"))
        (github_pr_exists xs sid) h).1
      i s e

github_pr_exists-yes :
    (submissions : List Submission) (sid : Text)
    → IsNoPullRequest submissions sid
    → github_pr_exists submissions sid ≡ false
unfolding github_pr_exists
github_pr_exists-yes [] sid h = refl
github_pr_exists-yes (x ∷ xs) sid h =
    let rest = github_pr_exists-yes xs sid (λ i. h (suc i)) in
    elim (Bool-cases (text_eq x.id sid)) [
      | inl e ↦ elim (Bool-cases (text_eq x.source (codes "github_pr"))) [
        | inl q ↦ absurd (
            h zero x refl (text_eq_sound x.id sid e) (text_eq_sound x.source (codes "github_pr") q))
        | inr q ↦ rw (e, q) rest
      ]
      | inr e ↦ rw e rest
    ]

lex-false :
    (a b c : Bool) → lex a b c ≡ false → (b ≡ true) ⊎ ((a ≡ false) × (b ≡ false) × (c ≡ false))
lex-false true b c h = absurd (ground arith)
lex-false false true c h = inl refl
lex-false false false c h = inr (refl, refl, h)

ltz-sound : (x y : ℤ) → ltz x y ≡ true → x <ℤ y
unfolding ltz
ltz-sound (pos m) (pos n) h = both_pos (ground arith)
ltz-sound (pos m) (negsuc n) h = absurd (ground arith)
ltz-sound (negsuc m) (pos n) h = across
ltz-sound (negsuc m) (negsuc n) h = both_neg (ground arith)

ltz-equal : (x y : ℤ) → ltz x y ≡ false → ltz y x ≡ false → y ≡ x
unfolding ltz
ltz-equal (pos m) (pos n) h k = ap pos (ground arith)
ltz-equal (pos m) (negsuc n) h k = absurd (ground arith)
ltz-equal (negsuc m) (pos n) h k = absurd (ground arith)
ltz-equal (negsuc m) (negsuc n) h k = ap negsuc (ground arith)

precedes-false-IsInFront :
    (id_before : Text → Text → Bool) (best job : JobQueue)
    → precedes id_before job best ≡ false
    → IsInFront id_before best job
unfolding precedes
precedes-false-IsInFront id_before best job h =
    elim (lex-false (ltz best.priority job.priority) (ltz job.priority best.priority) _ h) [
      | inl e ↦ inl (ltz-sound job.priority best.priority e)
      | inr (a, b, later) ↦ inr (
        ltz-equal best.priority job.priority a b,
        elim (lex-false (ltb job.created_at best.created_at) (ltb best.created_at job.created_at)
            (id_before job.id best.id) later) [
              | inl e ↦ inl (ground arith)
              | inr (c, d, ids) ↦ inr (ground arith, ids)
            ],
      )
    ]

is_queued_sound : (s : Status) → is_queued s ≡ true → s ≡ queued
is_queued_sound queued h = refl
is_queued_sound running h = absurd (ground arith)
is_queued_sound completed h = absurd (ground arith)
is_queued_sound failed h = absurd (ground arith)
is_queued_sound cancelled h = absurd (ground arith)

passes_review_sound :
    (enabled : Bool) (submissions : List Submission) (owner : Option Text)
    → passes_review enabled submissions owner ≡ true
    → IsReviewed enabled submissions owner
passes_review_sound enabled submissions none h = tt
passes_review_sound true submissions (some sid) h = inl refl
passes_review_sound false submissions (some sid) h =
    inr (github_pr_exists-no submissions sid (ground arith))

passes_review_complete :
    (enabled : Bool) (submissions : List Submission) (owner : Option Text)
    → IsReviewed enabled submissions owner
    → passes_review enabled submissions owner ≡ true
passes_review_complete enabled submissions none h = refl
passes_review_complete enabled submissions (some sid) (inl e) = rw e refl
passes_review_complete enabled submissions (some sid) (inr none_of) =
    rw (github_pr_exists-yes submissions sid none_of) (ground arith)

module _ (id_before : Text → Text → Bool) (locked : JobQueue → Bool) (enabled : Bool)
    (submissions : List Submission) where
  -- The row may be taken: it is queued, nobody holds its lock, and the review lets it through.
  pub record IsWaiting (job : JobQueue) : Type 0 where
    pub waits : job.status ≡ queued
    pub free : locked job ≡ false
    pub reviewed : IsReviewed enabled submissions job.submission_id

  -- The job is a row of the table that may be taken, and it stays in front of every such row.
  pub record IsNext (jobs : List JobQueue) (best : JobQueue) : Type 0 where
    pub listed : (i : ℕ) × (get_elem? jobs i ≡ some best)
    pub waiting : IsWaiting best
    pub first :
        (i : ℕ) (job : JobQueue)
        → get_elem? jobs i ≡ some job
        → IsWaiting job
        → IsInFront id_before best job

  is_eligible-IsWaiting :
      (job : JobQueue) → is_eligible locked enabled submissions job ≡ true → IsWaiting job
  unfolding is_eligible
  is_eligible-IsWaiting job h =
      let (waits, rest) = tests_true (is_queued job.status) _ h in
      let (reviewed, free) =
        tests_true (passes_review enabled submissions job.submission_id) _ rest in
      record {
        waits = is_queued_sound job.status waits;
        free = ground (arith, free);
        reviewed = passes_review_sound enabled submissions job.submission_id reviewed;
      }

  IsWaiting-is_eligible :
      (job : JobQueue) → IsWaiting job → is_eligible locked enabled submissions job ≡ true
  unfolding is_eligible
  IsWaiting-is_eligible job h = both_true (is_queued job.status) _ (ap is_queued h.waits) (
      both_true (passes_review enabled submissions job.submission_id) _
        (passes_review_complete enabled submissions job.submission_id h.reviewed) (ap not h.free))

  -- Where the database orders ids, the job that is chosen is a row of the table that is queued, is
  -- not locked, and is not that of a pull request unless the review is enabled; and every other
  -- such row has a lower priority, or the same one and a later creation, or the same two and an id
  -- that is not in front.
  pub next_job-IsNext :
      (jobs : List JobQueue) {best : JobQueue}
      → IsOrder id_before
      → next_job id_before locked enabled submissions jobs ≡ some best
      → IsNext jobs best
  next_job-IsNext jobs {best} order h =
      let b = next_job-IsBest id_before locked enabled submissions jobs order h in
      record {
        listed = b.listed;
        waiting = is_eligible-IsWaiting best b.eligible;
        first = λ i job e waiting.
            precedes-false-IsInFront id_before best job
              (b.first i job e (IsWaiting-is_eligible job waiting));
      }
