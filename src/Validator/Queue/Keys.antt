-- ===== src/Validator/Queue/Keys.antt =====
-- The unique deduplication keys of the table, and the lookup by them.
use mathlib.Core.Path.{subst}
use minirouter.Prelude.{
  ◌≡◌, refl, ap, Bool, ◌&&◌, true, false, Option, none, some, List, [], ◌∷◌, ◌++◌, arith, inl, inr,
  Text, text_eq, length, Bool-cases,
}
use minirouter.Validator.Queue.{JobQueue, same_key, has_key, find_key, update_key}

pub text_eq_refl : (s : Text) → text_eq s s ≡ true
unfolding text_eq
text_eq_refl [] = refl
text_eq_refl (c ∷ s) = ground (arith, text_eq_refl s)

pub text_eq_sound : (s t : Text) → text_eq s t ≡ true → s ≡ t
unfolding text_eq
text_eq_sound [] [] h = refl
text_eq_sound [] (d ∷ t) h = absurd (ground arith)
text_eq_sound (c ∷ s) [] h = absurd (ground arith)
text_eq_sound (c ∷ s) (d ∷ t) h =
    let p : c ≡ d = ground arith in let q : s ≡ t = text_eq_sound s t (ground arith) in cc

pub tests_true : (a b : Bool) → (a && b) ≡ true → (a ≡ true) × (b ≡ true)
tests_true true b h = (refl, h)
tests_true false b h = absurd (ground arith)

pub text_eq_of : {s t : Text} → s ≡ t → text_eq s t ≡ true
text_eq_of {s} e = subst (λ x. text_eq s x ≡ true) e (text_eq_refl s)

pub text_eq-differs : (s t : Text) → text_eq s t ≡ false → ¬ s ≡ t
text_eq-differs s t e p = ground (arith, e, text_eq_of p)

pub text_eq_comm : (s t : Text) → text_eq s t ≡ text_eq t s
unfolding text_eq
text_eq_comm [] [] = refl
text_eq_comm [] (d ∷ t) = refl
text_eq_comm (c ∷ s) [] = refl
text_eq_comm (c ∷ s) (d ∷ t) = ground (arith, text_eq_comm s t)

-- No row has the key.
abbrev pub IsFree : Option Text → List JobQueue → Type 0
IsFree none jobs = Unit
IsFree (some key) jobs = find_key key jobs ≡ none

-- The constraint `unique=True` on the column: no two rows have one key.
abbrev pub KeysUnique : List JobQueue → Type 0
KeysUnique [] = Unit
KeysUnique (job ∷ jobs) = IsFree job.dedupe_key jobs × KeysUnique jobs

-- A change of a row that keeps the key.
abbrev pub KeepsKey : (JobQueue → JobQueue) → Type 0
KeepsKey f = (job : JobQueue) → (f job).dedupe_key ≡ job.dedupe_key

pub find_key-append :
    (key : Text) (jobs later : List JobQueue)
    → find_key key jobs ≡ none
    → find_key key (jobs ++ later) ≡ find_key key later
unfolding find_key
find_key-append key [] later h = refl
find_key-append key (job ∷ jobs) later h = elim (Bool-cases (has_key key job)) [
  | inl e ↦ absurd (ground arith)
  | inr e ↦ rw e (find_key-append key jobs later (rw e at h))
]

pub find_key-append_nothing :
    (key : Text) (jobs later : List JobQueue)
    → find_key key later ≡ none
    → find_key key (jobs ++ later) ≡ find_key key jobs
unfolding find_key
find_key-append_nothing key [] later h = h
find_key-append_nothing key (job ∷ jobs) later h = elim (Bool-cases (has_key key job)) [
  | inl e ↦ rw e
  | inr e ↦ rw (e, find_key-append_nothing key jobs later h)
]

-- What a row's key decides, a change that keeps the key leaves.
has_key-keeps :
    (k : Text) (f : JobQueue → JobQueue)
    → KeepsKey f
    → (job : JobQueue) → has_key k (f job) ≡ has_key k job
has_key-keeps k f keeps job = ap (same_key (some k)) (keeps job)

pub find_key-update_key-none :
    (k key : Text) (f : JobQueue → JobQueue) (jobs : List JobQueue)
    → KeepsKey f
    → find_key k jobs ≡ none
    → find_key k (update_key key f jobs) ≡ none
unfolding find_key update_key
find_key-update_key-none k key f [] keeps h = refl
find_key-update_key-none k key f (job ∷ jobs) keeps h = elim (Bool-cases (has_key k job)) [
  | inl e ↦ absurd (ground arith)
  | inr e ↦
      let h' = rw e at h in
      elim (Bool-cases (has_key key job)) [
        | inl q ↦ rw (q, has_key-keeps k f keeps job, e) h'
        | inr q ↦ rw (q, e) (find_key-update_key-none k key f jobs keeps h')
      ]
]

pub IsFree-update_key :
    (k : Option Text) (key : Text) (f : JobQueue → JobQueue) (jobs : List JobQueue)
    → KeepsKey f
    → IsFree k jobs
    → IsFree k (update_key key f jobs)
IsFree-update_key none key f jobs keeps h = tt
IsFree-update_key (some k) key f jobs keeps h = find_key-update_key-none k key f jobs keeps h

pub KeysUnique-update_key :
    (key : Text) (f : JobQueue → JobQueue) (jobs : List JobQueue)
    → KeepsKey f
    → KeysUnique jobs
    → KeysUnique (update_key key f jobs)
unfolding update_key
KeysUnique-update_key key f [] keeps h = tt
KeysUnique-update_key key f (job ∷ jobs) keeps h = elim (Bool-cases (has_key key job)) [
  | inl q ↦ rw (q, keeps job) h
  | inr q ↦ rw q (
    IsFree-update_key job.dedupe_key key f jobs keeps h.0,
    KeysUnique-update_key key f jobs keeps h.1,
  )
]

-- The row that the lookup finds is the row that the update changes.
pub find_key-update_key :
    (key : Text) (f : JobQueue → JobQueue) (jobs : List JobQueue) {job : JobQueue}
    → KeepsKey f
    → find_key key jobs ≡ some job
    → find_key key (update_key key f jobs) ≡ some (f job)
unfolding find_key update_key
find_key-update_key key f [] keeps h = cc
find_key-update_key key f (j ∷ jobs) keeps h = elim (Bool-cases (has_key key j)) [
  | inl q ↦ let h' = rw q at h in rw (q, has_key-keeps key f keeps j, q) (cc)
  | inr q ↦ rw (q, q) (find_key-update_key key f jobs keeps (rw q at h))
]

has_key-other :
    (k key : Text) (o : Option Text)
    → text_eq k key ≡ false
    → same_key (some key) o ≡ true
    → same_key (some k) o ≡ false
has_key-other k key none e h = absurd (ground arith)
has_key-other k key (some x) e h = rw (text_eq_sound key x h) at e

-- A row with another key stays.
pub find_key-update_key-other :
    (k key : Text) (f : JobQueue → JobQueue) (jobs : List JobQueue)
    → KeepsKey f
    → text_eq k key ≡ false
    → find_key k (update_key key f jobs) ≡ find_key k jobs
unfolding find_key update_key
find_key-update_key-other k key f [] keeps e = refl
find_key-update_key-other k key f (job ∷ jobs) keeps e = elim (Bool-cases (has_key key job)) [
  | inl q ↦
      let away = has_key-other k key job.dedupe_key e q in rw (q, has_key-keeps k f keeps job, away)
  | inr q ↦ rw (q, find_key-update_key-other k key f jobs keeps e)
]

pub length-update_key :
    (key : Text) (f : JobQueue → JobQueue) (jobs : List JobQueue)
    → length (update_key key f jobs) ≡ length jobs
unfolding update_key
length-update_key key f [] = refl
length-update_key key f (job ∷ jobs) = elim (Bool-cases (has_key key job)) [
  | inl q ↦ rw q
  | inr q ↦ rw (q, length-update_key key f jobs)
]
