-- ===== src/Prelude/StrLaws.antt =====
-- Laws of stripping and slicing.
use Prim.Native.Nat.{ℕ, ◌+◌}
use mathlib.Core.Path.{◌≡◌, refl, ap}
use mathlib.Core.Logic.{◌⊎◌, inl, inr}
use mathlib.Core.Bool.{true}
use mathlib.Core.List.{List, [], ◌∷◌, ◌++◌, reverse-append}
use native.Mathlib.Nat.{suc-add}
use native.Mathlib.Omega.{arith}
use minirouter.Prelude.Tests.{Bool-cases}
use minirouter.Prelude.Lists.{length, take}
use minirouter.Prelude.Str.{Text, is_space, lstrip, strip}

module _ {ℓ} {A : Type ℓ} where
  pub List-cases : (xs : List A) → (xs ≡ []) ⊎ ((y : A) × (ys : List A) × (xs ≡ y ∷ ys))
  List-cases [] = inl refl
  List-cases (y ∷ ys) = inr (y, ys, refl)

  -- A slice that ends behind a prefix.
  pub take-append : (xs ys : List A) (n : ℕ) → take (length xs + n) (xs ++ ys) ≡ xs ++ take n ys
  take-append [] ys n = ground arith
  take-append (x ∷ xs) ys n = rw suc-add (ap (λ t. x ∷ t) (take-append xs ys n))

pub lstrip-append_blank : (t s : Text) → lstrip t ≡ [] → lstrip (t ++ s) ≡ lstrip s
unfolding lstrip
lstrip-append_blank [] s h = refl
lstrip-append_blank (c ∷ t) s h = elim (Bool-cases (is_space c)) [
  | inl e ↦ rw e (lstrip-append_blank t s (rw e at h))
  | inr e ↦ absurd (ground arith)
]

pub lstrip-append_cons :
    (t s : Text) {d : ℕ} {r : Text} → lstrip t ≡ d ∷ r → lstrip (t ++ s) ≡ d ∷ (r ++ s)
unfolding lstrip
lstrip-append_cons [] s h = cc
lstrip-append_cons (c ∷ t) s h = elim (Bool-cases (is_space c)) [
  | inl e ↦ rw e (lstrip-append_cons t s (rw e at h))
  | inr e ↦ ground arith
]

-- White space at the end does not count.
pub strip-append_space : (t : Text) (c : ℕ) → is_space c ≡ true → strip (t ++ c ∷ []) ≡ strip t
unfolding strip
strip-append_space t c h = elim (List-cases (lstrip t)) [
  | inl e ↦ rw (lstrip-append_blank t (c ∷ []) e, e) (unfold lstrip in rw h)
  | inr (d, r, e) ↦
      rw (lstrip-append_cons t (c ∷ []) e, e)
        (rw (reverse-append (d ∷ r) (c ∷ [])) (unfold lstrip in rw h))
]
