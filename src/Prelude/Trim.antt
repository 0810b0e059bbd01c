-- ===== src/Prelude/Trim.antt =====
-- Texts with no white space at either end: what `strip` returns, and leaves alone.
use Prim.Native.Nat.{ℕ, ◌≤◌}
use mathlib.Core.Path.{◌≡◌, refl, ap}
use mathlib.Core.Bool.{false}
use mathlib.Core.Logic.{◌≢◌, inl, inr}
use mathlib.Core.List.{[], ◌∷◌, ◌++◌, reverse, reverse-append, reverse-reverse}
use native.Mathlib.Omega.{arith}
use minirouter.Prelude.Tests.{Bool-cases}
use minirouter.Prelude.Lists.{length}
use minirouter.Prelude.Str.{Text, is_space, lstrip, strip}

-- No white space at the front.
abbrev pub Starts : Text → Type 0
Starts t = lstrip t ≡ t

pub record IsTrimmed (t : Text) : Type 0 where
  pub front : Starts t
  pub back : Starts (reverse t)

length-lstrip-le : (t : Text) → length (lstrip t) ≤ length t
unfolding lstrip
length-lstrip-le [] = omega arith
length-lstrip-le (c ∷ t) = elim (Bool-cases (is_space c)) [
  | inl e ↦ rw e (omega (arith, length-lstrip-le t))
  | inr e ↦ rw e (omega arith)
]

Starts-head : {c : ℕ} {t : Text} → Starts (c ∷ t) → is_space c ≡ false
unfolding lstrip
Starts-head {c} {t} h = elim (Bool-cases (is_space c)) [
  | inl e ↦
      let p : lstrip t ≡ c ∷ t = rw e at h in
      absurd (omega (arith, ap (λ (s : Text). length s) p, length-lstrip-le t))
  | inr e ↦ e
]

Starts-cons : {c : ℕ} (t : Text) → is_space c ≡ false → Starts (c ∷ t)
unfolding lstrip
Starts-cons t e = rw e

pub Starts-prefix : (p q : Text) → Starts (p ++ q) → Starts p
Starts-prefix [] q h = unfold lstrip in refl
Starts-prefix (c ∷ p) q h = Starts-cons p (Starts-head h)

pub Starts-append : (p q : Text) → Starts p → p ≢ [] → Starts (p ++ q)
Starts-append [] q h n = absurd (n refl)
Starts-append (c ∷ p) q h n = Starts-cons (p ++ q) (Starts-head h)

pub lstrip-Starts : (t : Text) → Starts (lstrip t)
unfolding lstrip
lstrip-Starts [] = refl
lstrip-Starts (c ∷ t) = elim (Bool-cases (is_space c)) [
  | inl e ↦ rw e (lstrip-Starts t)
  | inr e ↦ rw (e, lstrip) (Starts-cons t e)
]

lstrip_suffix : (t : Text) → (p : Text) × (t ≡ p ++ lstrip t)
unfolding lstrip
lstrip_suffix [] = ([], refl)
lstrip_suffix (c ∷ t) = elim (Bool-cases (is_space c)) [
  | inl e ↦ let (p, h) = lstrip_suffix t in (c ∷ p, rw e (ap (λ s. c ∷ s) h))
  | inr e ↦ ([], rw e)
]

pub strip_of_IsTrimmed : {t : Text} → IsTrimmed t → strip t ≡ t
unfolding strip
strip_of_IsTrimmed {t} h = rw (h.front, h.back) (reverse-reverse t)

pub strip-IsTrimmed : (t : Text) → IsTrimmed (strip t)
unfolding strip
strip-IsTrimmed t = record {
  front =
      let (p, e) = lstrip_suffix (reverse (lstrip t)) in
      Starts-prefix (reverse (lstrip (reverse (lstrip t)))) (reverse p) (
        rw (← reverse-append p (lstrip (reverse (lstrip t))), ← e, reverse-reverse (lstrip t))
          (lstrip-Starts t));
  back = rw (reverse-reverse (lstrip (reverse (lstrip t)))) (lstrip-Starts (reverse (lstrip t)));
}

-- Stripping twice is stripping once.
pub strip-strip : (t : Text) → strip (strip t) ≡ strip t
strip-strip t = strip_of_IsTrimmed (strip-IsTrimmed t)
