-- ===== src/Fugu/Gate/Holds.antt =====
-- What a check's accepted value satisfies: the rules for each way to build a check.
use minirouter.Prelude.{◌≡◌, refl, Bool, true, false, if◌then◌else◌}
use minirouter.Fugu.Gate.{Checked, ok, reject, raise, ◌>>=◌, or_next}

-- What an accepted value satisfies, and the rule for a check behind a check.
abbrev pub Holds {ℓ κ} : {A : Type ℓ} → (A → Type κ) → Checked A → Type κ
Holds P (ok a) = P a
Holds P _ = Unit

pub Holds-bind {ℓ κ μ ν} :
    {A : Type ℓ} {B : Type κ} (P : A → Type μ) (Q : B → Type ν) (m : Checked A) (f : A → Checked B)
    → Holds P m
    → ((a : A) → P a → Holds Q (f a))
    → Holds Q (m >>= f)
Holds-bind P Q (ok a) f h k = k a h
Holds-bind P Q reject f h k = tt
Holds-bind P Q raise f h k = tt

-- A check with nothing to say of its value.
pub Holds-any {ℓ} : {A : Type ℓ} (m : Checked A) → Holds (λ (a : A). Unit {0}) m
Holds-any (ok a) = tt
Holds-any reject = tt
Holds-any raise = tt

pub Holds-if {ℓ κ} :
    {A : Type ℓ} (P : A → Type κ) (b : Bool) (m n : Checked A)
    → (b ≡ true → Holds P m)
    → (b ≡ false → Holds P n)
    → Holds P (if b then m else n)
Holds-if P true m n km kn = km refl
Holds-if P false m n km kn = kn refl

pub Holds-weaken {ℓ κ μ} :
    {A : Type ℓ} (P : A → Type κ) (Q : A → Type μ) (m : Checked A)
    → Holds P m
    → ((a : A) → P a → Q a)
    → Holds Q m
Holds-weaken P Q (ok a) h k = k a h
Holds-weaken P Q reject h k = tt
Holds-weaken P Q raise h k = tt

pub Holds-both {ℓ κ μ} :
    {A : Type ℓ} (P : A → Type κ) (Q : A → Type μ) (m : Checked A)
    → Holds P m
    → Holds Q m
    → Holds (λ a. P a × Q a) m
Holds-both P Q (ok a) h k = (h, k)
Holds-both P Q reject h k = tt
Holds-both P Q raise h k = tt

module _ {ℓ κ} {A : Type ℓ} (P : A → Type κ) where
  pub Holds-or_next : (m n : Checked A) → Holds P m → Holds P n → Holds P (or_next m n)
  Holds-or_next (ok a) n h k = h
  Holds-or_next reject n h k = k
  Holds-or_next raise n h k = tt
