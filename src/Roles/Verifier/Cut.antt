-- ===== src/Roles/Verifier/Cut.antt =====
-- A line break cuts the pattern: what stands behind it decides no match in front of it.
use minirouter.Prelude.{
  ℕ, zero, suc, ◌+◌, ◌-◌, ◌≤◌, ◌≡◌, refl, ap, ◌∙◌, Bool, true, ◌&&◌, not, Option, none, some, List,
  [], ◌∷◌, ◌++◌, arith, ◌⊎◌, inl, inr, Text, codes, lstrip, length, length-append, take, Bool-cases,
  Option-cases, List-cases, lstrip-append_blank, lstrip-append_cons,
}
use minirouter.Prelude.Unicode.{Unicode, is_word}
use minirouter.Roles.Verifier.{
  same_letter, literal, ends_word, verdict_key, accept_text, revise_text, or_else, decision,
  with_group, behind_key, verdict_at, find_verdicts,
}

-- A line break, then the key and what follows it.
abbrev pub closing : Text → Text
closing w = codes "\nVERDICT: " ++ w

abbrev followed_by : Text → Option Text → Option Text
followed_by s none = none
followed_by s (some r) = some (r ++ s)

-- No letter of the literal is `c`.
abbrev misses : ℕ → Text → Bool
misses c [] = true
misses c (p ∷ ps) = not (same_letter p c) && misses c ps

literal-cut :
    (p t : Text) (c : ℕ) (s : Text)
    → misses c p ≡ true
    → literal p (t ++ c ∷ s) ≡ followed_by (c ∷ s) (literal p t)
unfolding literal
literal-cut [] t c s h = refl
literal-cut (p ∷ ps) [] c s h = ground arith
literal-cut (p ∷ ps) (d ∷ t) c s h = elim (Bool-cases (same_letter p d)) [
  | inl e ↦ rw e (literal-cut ps t c s (ground arith))
  | inr e ↦ rw e
]

-- A literal takes as many characters as it has.
literal-length : (p s : Text) {r : Text} → literal p s ≡ some r → length s ≡ length p + length r
unfolding literal
literal-length [] s h = ground arith
literal-length (p ∷ ps) [] h = cc
literal-length (p ∷ ps) (c ∷ s) h = elim (Bool-cases (same_letter p c)) [
  | inl e ↦ omega (arith, literal-length ps s (rw e at h))
  | inr e ↦ absurd (ground arith)
]

decision-cut : (t w : Text) → decision (t ++ closing w) ≡ followed_by (closing w) (decision t)
unfolding decision
decision-cut t w =
    rw
      (
        literal-cut accept_text t 10 (codes "VERDICT: " ++ w) refl,
        literal-cut revise_text t 10 (codes "VERDICT: " ++ w) refl,
      )
      (ground arith)

pub or_else-cases :
    (a b : Option Text) {r : Text} → or_else a b ≡ some r → (a ≡ some r) ⊎ (b ≡ some r)
or_else-cases none b h = inr h
or_else-cases (some x) b h = inl h

decision-length : (s : Text) {r : Text} → decision s ≡ some r → length s ≡ 6 + length r
unfolding decision
decision-length s h = elim (or_else-cases (literal accept_text s) (literal revise_text s) h) [
  | inl e ↦ literal-length accept_text s e
  | inr e ↦ literal-length revise_text s e
]

ends_word-cut : (u : Unicode) (t w : Text) → ends_word u (t ++ closing w) ≡ ends_word u t
unfolding ends_word is_word
ends_word-cut u [] w = refl
ends_word-cut u (c ∷ t) w = refl

take-append_le {ℓ} :
    {A : Type ℓ} (n : ℕ) (xs ys : List A) → n ≤ length xs → take n (xs ++ ys) ≡ take n xs
take-append_le zero xs ys h = refl
take-append_le (suc n) [] ys h = absurd (omega arith)
take-append_le (suc n) (x ∷ xs) ys h = ap (λ t. x ∷ t) (take-append_le n xs ys (omega arith))

with_group-cut :
    (u : Unicode) (s body w : Text) (o : Option Text)
    → ((r : Text) → o ≡ some r → 6 ≤ length body)
    → with_group u (s ++ closing w) (body ++ closing w) (followed_by (closing w) o)
      ≡ with_group u s body o
with_group-cut u s body w none h = refl
with_group-cut u s body w (some r) h =
    rw (ends_word-cut, take-append_le 6 body (closing w) (h r refl))
      (rw (length-append s (closing w), length-append r (closing w))
        (let e : length s + length (closing w) - (length r + length (closing w))
              ≡ length s - length r =
            omega arith in
          rw e))

decision-closing : (w : Text) → decision (lstrip (closing w)) ≡ none
unfolding decision lstrip
decision-closing w = refl

six_letters : (s : Text) {r : Text} → decision s ≡ some r → 6 ≤ length s
six_letters s h = omega (arith, decision-length s h)

behind_key-cut :
    (u : Unicode) (s w : Text) (o : Option Text)
    → behind_key u (s ++ closing w) (followed_by (closing w) o) ≡ behind_key u s o
behind_key-cut u s w none = refl
behind_key-cut u s w (some rest) = elim (List-cases (lstrip rest)) [
  | inl e ↦
      rw (lstrip-append_blank rest (closing w) e, e, decision-closing w) (unfold decision in refl)
  | inr (d, r, e) ↦
      rw (lstrip-append_cons rest (closing w) e, e, decision-cut (d ∷ r) w)
        (with_group-cut u s (d ∷ r) w (decision (d ∷ r)) (λ a h. six_letters (d ∷ r) h))
]

pub verdict_at-cut : (u : Unicode) (t w : Text) → verdict_at u (t ++ closing w) ≡ verdict_at u t
unfolding verdict_at
verdict_at-cut u t w =
    rw (literal-cut verdict_key t 10 (codes "VERDICT: " ++ w) refl)
      (behind_key-cut u t w (literal verdict_key t))

with_group-length :
    (u : Unicode) (s body : Text) (o : Option Text) {n : ℕ} {g : Text}
    → with_group u s body o ≡ some (n, g)
    → n ≤ length s
with_group-length u s body none h = cc
with_group-length u s body (some r) h = ground arith

verdict_at-length :
    (u : Unicode) (s : Text) {n : ℕ} {g : Text} → verdict_at u s ≡ some (n, g) → n ≤ length s
unfolding verdict_at
verdict_at-length u s h = elim (Option-cases (literal verdict_key s)) [
  | inl e ↦ absurd (ground arith)
  | inr (r, e) ↦ with_group-length u s (lstrip r) (decision (lstrip r)) (rw e at h)
]

pub find_verdicts-none :
    (u : Unicode) (pos c : ℕ) (s : Text)
    → verdict_at u (c ∷ s) ≡ none
    → find_verdicts u pos 0 (c ∷ s) ≡ find_verdicts u (pos + 1) 0 s
unfolding find_verdicts
find_verdicts-none u pos c s h = rw (h, find_verdicts)

pub find_verdicts-some :
    (u : Unicode) (pos c : ℕ) (s : Text) {n : ℕ} {g : Text}
    → verdict_at u (c ∷ s) ≡ some (n, g)
    → find_verdicts u pos 0 (c ∷ s) ≡ (pos, g) ∷ find_verdicts u (pos + 1) (n - 1) s
unfolding find_verdicts
find_verdicts-some u pos c s h = rw (h, find_verdicts)

pub find_verdicts-skip :
    (u : Unicode) (pos skip c : ℕ) (s : Text)
    → find_verdicts u pos (suc skip) (c ∷ s) ≡ find_verdicts u (pos + 1) skip s
unfolding find_verdicts
find_verdicts-skip u pos skip c s = refl

pub find_verdicts-nil : (u : Unicode) (pos skip : ℕ) → find_verdicts u pos skip [] ≡ []
unfolding find_verdicts
find_verdicts-nil u pos skip = refl

-- Where a text behind decides no match, the search goes through the text in front by itself.
module _ (u : Unicode) (x : Text) (cut : (t : Text) → verdict_at u (t ++ x) ≡ verdict_at u t) where
  pub find_verdicts-append :
      (pos skip : ℕ) (t : Text)
      → skip ≤ length t
      → find_verdicts u pos skip (t ++ x)
        ≡ find_verdicts u pos skip t ++ find_verdicts u (pos + length t) 0 x
  find_verdicts-append pos zero [] h =
      let e : pos + 0 ≡ pos = omega arith in rw (find_verdicts-nil, e)
  find_verdicts-append pos (suc skip) [] h = absurd (omega arith)
  find_verdicts-append pos (suc skip) (c ∷ t) h =
      let e : pos + suc (length t) ≡ pos + 1 + length t = omega arith in
      rw (e, find_verdicts-skip u pos skip c (t ++ x), find_verdicts-skip u pos skip c t)
        (find_verdicts-append (pos + 1) skip t (omega arith))
  find_verdicts-append pos zero (c ∷ t) h =
      let e : pos + suc (length t) ≡ pos + 1 + length t = omega arith in
      elim (Option-cases (verdict_at u (c ∷ t))) [
        | inl q ↦
            rw
              (
                e,
                find_verdicts-none u pos c (t ++ x) (cut (c ∷ t) ∙ q),
                find_verdicts-none u pos c t q,
              )
              (find_verdicts-append (pos + 1) 0 t (omega arith))
        | inr ((n, g), q) ↦
            rw
              (
                e,
                find_verdicts-some u pos c (t ++ x) (cut (c ∷ t) ∙ q),
                find_verdicts-some u pos c t q,
              )
              (ap (λ l. (pos, g) ∷ l)
                (find_verdicts-append (pos + 1) (n - 1) t
                  (omega (arith, verdict_at-length u (c ∷ t) q))))
      ]
