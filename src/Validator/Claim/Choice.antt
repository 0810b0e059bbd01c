-- ===== src/Validator/Claim/Choice.antt =====
-- Which job is chosen, by the tests of the code.
use mathlib.Core.Path.{subst}
use minirouter.Prelude.{
  ℕ, zero, suc, ◌≡◌, refl, Bool, true, false, Option, none, some, List, [], ◌∷◌, arith, inl, inr,
  Text, get_elem?, Bool-cases,
}
use minirouter.Validator.Queue.{JobQueue}
use minirouter.Validator.Queue.Jobs.{Submission}
use minirouter.Validator.Claim.{is_eligible, precedes, better, next_job}
use minirouter.Validator.Claim.Order.{IsOrder, precedes-IsOrder}

module _ (id_before : Text → Text → Bool) (locked : JobQueue → Bool) (enabled : Bool)
    (submissions : List Submission) where
  -- The job is an eligible row of the table, and no eligible row comes before it.
  pub record IsBest (jobs : List JobQueue) (best : JobQueue) : Type 0 where
    pub listed : (i : ℕ) × (get_elem? jobs i ≡ some best)
    pub eligible : is_eligible locked enabled submissions best ≡ true
    pub first :
        (i : ℕ) (job : JobQueue)
        → get_elem? jobs i ≡ some job
        → is_eligible locked enabled submissions job ≡ true
        → precedes id_before job best ≡ false

  abbrev pub NoneEligible : List JobQueue → Type 0
  NoneEligible jobs =
      (i : ℕ) (job : JobQueue)
      → get_elem? jobs i ≡ some job
      → is_eligible locked enabled submissions job ≡ false

  abbrev Chosen : List JobQueue → Option JobQueue → Type 0
  Chosen jobs none = NoneEligible jobs
  Chosen jobs (some best) = IsBest jobs best

  some-injective : {A : Type 0} {x y : A} → Option.some x ≡ some y → x ≡ y
  some-injective h = cc

  skipped_none :
      (job : JobQueue) (jobs : List JobQueue)
      → is_eligible locked enabled submissions job ≡ false
      → NoneEligible jobs
      → NoneEligible (job ∷ jobs)
  skipped_none job jobs e c zero k h =
      subst (λ x. is_eligible locked enabled submissions x ≡ false) (some-injective h) e
  skipped_none job jobs e c (suc i) k h = c i k h

  skipped :
      (job : JobQueue) (jobs : List JobQueue) (r : Option JobQueue)
      → is_eligible locked enabled submissions job ≡ false
      → Chosen jobs r
      → Chosen (job ∷ jobs) r
  skipped job jobs none e c = skipped_none job jobs e c
  skipped job jobs (some best) e c = record {
    listed = (suc c.listed.0, c.listed.1);
    eligible = c.eligible;
    first = go;
  }
    where
      go :
          (i : ℕ) (k : JobQueue)
          → get_elem? (job ∷ jobs) i ≡ some k
          → is_eligible locked enabled submissions k ≡ true
          → precedes id_before k best ≡ false
      go zero k h l = absurd (
          ground (
            arith,
            l,
            subst (λ x. is_eligible locked enabled submissions x ≡ false) (some-injective h) e,
          ))
      go (suc i) k h l = c.first i k h l

  module _ (order : IsOrder (precedes id_before)) where
    irreflexive : (x : JobQueue) → precedes id_before x x ≡ false
    irreflexive x = elim (Bool-cases (precedes id_before x x)) [
      | inl e ↦ order.asym x x e
      | inr e ↦ e
    ]

    behind :
        (k b j : JobQueue)
        → precedes id_before k b ≡ false
        → precedes id_before b j ≡ false
        → precedes id_before k j ≡ false
    behind k b j p q = elim (Bool-cases (precedes id_before k j)) [
      | inl e ↦ absurd (ground (arith, order.between k b j e))
      | inr e ↦ e
    ]

    taken :
        (job : JobQueue) (jobs : List JobQueue) (r : Option JobQueue)
        → is_eligible locked enabled submissions job ≡ true
        → Chosen jobs r
        → IsBest (job ∷ jobs) (better id_before job r)
    taken job jobs none e c = record { listed = (zero, refl); eligible = e; first = go }
      where
        go :
            (i : ℕ) (k : JobQueue)
            → get_elem? (job ∷ jobs) i ≡ some k
            → is_eligible locked enabled submissions k ≡ true
            → precedes id_before k job ≡ false
        go zero k h l =
            subst (λ x. precedes id_before x job ≡ false) (some-injective h) (irreflexive job)
        go (suc i) k h l = absurd (ground (arith, l, c i k h))
    taken job jobs (some best) e c = elim (Bool-cases (precedes id_before best job)) [
      | inl q ↦
          rw q (record {
            listed = (suc c.listed.0, c.listed.1);
            eligible = c.eligible;
            first = stays q;
          })
      | inr q ↦ rw q (record { listed = (zero, refl); eligible = e; first = leads q })
    ]
      where
        stays :
            precedes id_before best job ≡ true
            → (i : ℕ) (k : JobQueue) → get_elem? (job ∷ jobs) i ≡ some k
            → is_eligible locked enabled submissions k ≡ true
            → precedes id_before k best ≡ false
        stays q zero k h l =
            subst (λ x. precedes id_before x best ≡ false) (some-injective h)
              (order.asym best job q)
        stays q (suc i) k h l = c.first i k h l

        leads :
            precedes id_before best job ≡ false
            → (i : ℕ) (k : JobQueue) → get_elem? (job ∷ jobs) i ≡ some k
            → is_eligible locked enabled submissions k ≡ true
            → precedes id_before k job ≡ false
        leads q zero k h l =
            subst (λ x. precedes id_before x job ≡ false) (some-injective h) (irreflexive job)
        leads q (suc i) k h l = behind k best job (c.first i k h l) q

    next_job-Chosen :
        (jobs : List JobQueue) → Chosen jobs (next_job id_before locked enabled submissions jobs)
    unfolding next_job
    next_job-Chosen [] = λ i k h. cc
    next_job-Chosen (job ∷ jobs) = elim (Bool-cases (is_eligible locked enabled submissions job)) [
      | inl e ↦ simp e (
          taken job jobs (next_job id_before locked enabled submissions jobs) e
            (next_job-Chosen jobs))
      | inr e ↦ simp e (
          skipped job jobs (next_job id_before locked enabled submissions jobs) e
            (next_job-Chosen jobs))
    ]

  -- The job that is chosen is an eligible row of the table, and no eligible row precedes it.
  pub next_job-IsBest :
      (jobs : List JobQueue) {best : JobQueue}
      → IsOrder id_before
      → next_job id_before locked enabled submissions jobs ≡ some best
      → IsBest jobs best
  next_job-IsBest jobs order h =
      subst (Chosen jobs) h (next_job-Chosen (precedes-IsOrder id_before order) jobs)

  -- No job is chosen only where no row of the table is eligible.
  pub next_job-none :
      (jobs : List JobQueue) (i : ℕ) (job : JobQueue)
      → IsOrder id_before
      → next_job id_before locked enabled submissions jobs ≡ none
      → get_elem? jobs i ≡ some job
      → is_eligible locked enabled submissions job ≡ false
  next_job-none jobs i job order h =
      subst (Chosen jobs) h (next_job-Chosen (precedes-IsOrder id_before order) jobs) i job
