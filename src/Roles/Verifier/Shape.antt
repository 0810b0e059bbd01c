-- ===== src/Roles/Verifier/Shape.antt =====
-- What a parsed verdict can be.
use mathlib.Core.Path.{subst}
use minirouter.Prelude.{
  ℕ, zero, suc, ◌+◌, ◌-◌, ◌≡◌, ◌≢◌, refl, sym, ◌∙◌, ◌⊎◌, inl, inr, Bool, true, ◌&&◌, Option, none,
  some, List, [], ◌∷◌, map, arith, Text, codes, lstrip, length, take, Bool-cases, Option-cases,
  ◌==◌, not,
}
use minirouter.Prelude.Unicode.{Unicode, is_upper_ascii}
use minirouter.Roles.Verifier.{
  same_letter, literal, decision, verdict_key, accept_text, revise_text, with_group, verdict_at,
  find_verdicts, last?, upper_letter, parse_verdict, group_upper,
}
use minirouter.Roles.Verifier.Cut.{
  or_else-cases, find_verdicts-none, find_verdicts-some, find_verdicts-skip, find_verdicts-nil,
}

-- Letter by letter, the text is one that the literal takes.
abbrev Same : Text → Text → Type 0
Same [] [] = Unit
Same (p ∷ ps) (c ∷ s) = (same_letter p c ≡ true) × Same ps s
Same [] (c ∷ s) = ⊥
Same (p ∷ ps) [] = ⊥

abbrev IsGroup : Text → Type 0
IsGroup g = Same accept_text g ⊎ Same revise_text g

literal-Same : (p s : Text) {r : Text} → literal p s ≡ some r → Same p (take (length p) s)
unfolding literal
literal-Same [] s h = tt
literal-Same (p ∷ ps) [] h = cc
literal-Same (p ∷ ps) (c ∷ s) h = elim (Bool-cases (same_letter p c)) [
  | inl e ↦ (e, literal-Same ps s (rw e at h))
  | inr e ↦ absurd (ground arith)
]

decision-IsGroup : (s : Text) {r : Text} → decision s ≡ some r → IsGroup (take 6 s)
unfolding decision
decision-IsGroup s h = elim (or_else-cases (literal accept_text s) (literal revise_text s) h) [
  | inl e ↦ inl (literal-Same accept_text s e)
  | inr e ↦ inr (literal-Same revise_text s e)
]

with_group-take :
    (u : Unicode) (s body : Text) (o : Option Text) {n : ℕ} {g : Text}
    → with_group u s body o ≡ some (n, g)
    → (r : Text) × (o ≡ some r) × (take 6 body ≡ g)
with_group-take u s body none h = cc
with_group-take u s body (some r) h = (r, refl, ground arith)

verdict_at-IsGroup :
    (u : Unicode) (s : Text) {n : ℕ} {g : Text} → verdict_at u s ≡ some (n, g) → IsGroup g
unfolding verdict_at
verdict_at-IsGroup u s h = elim (Option-cases (literal verdict_key s)) [
  | inl e ↦ absurd (ground arith)
  | inr (r, e) ↦
      let (a, d, t) = with_group-take u s (lstrip r) (decision (lstrip r)) (rw e at h) in
      rw t at (decision-IsGroup (lstrip r) d)
]

abbrev AllGroups : List (ℕ × Text) → Type 0
AllGroups [] = Unit
AllGroups (m ∷ ms) = IsGroup m.1 × AllGroups ms

find_verdicts-AllGroups :
    (u : Unicode) (pos skip : ℕ) (s : Text) → AllGroups (find_verdicts u pos skip s)
find_verdicts-AllGroups u pos skip [] = rw (find_verdicts-nil u pos skip) tt
find_verdicts-AllGroups u pos (suc skip) (c ∷ s) =
    rw (find_verdicts-skip u pos skip c s) (find_verdicts-AllGroups u (pos + 1) skip s)
find_verdicts-AllGroups u pos zero (c ∷ s) = elim (Option-cases (verdict_at u (c ∷ s))) [
  | inl e ↦ rw (find_verdicts-none u pos c s e) (find_verdicts-AllGroups u (pos + 1) 0 s)
  | inr ((n, g), e) ↦
      rw (find_verdicts-some u pos c s e)
        ((verdict_at-IsGroup u (c ∷ s) e, find_verdicts-AllGroups u (pos + 1) (n - 1) s))
]

last?-AllGroups :
    (ms : List (ℕ × Text)) {m : ℕ × Text} → AllGroups ms → last? ms ≡ some m → IsGroup m.1
unfolding last?
last?-AllGroups [] a h = cc
last?-AllGroups (m ∷ []) {m = m'} a h =
    let e : m ≡ m' = cc in subst (λ (x : ℕ × Text). IsGroup x.1) e a.0
last?-AllGroups (m ∷ n ∷ ms) a h = last?-AllGroups (n ∷ ms) a.1 h

-- A letter of the pattern is what the character's upper case is, but for the dotted capital I.
letter_upper :
    (p c : ℕ) → is_upper_ascii p ≡ true → p ≢ b'I' → same_letter p c ≡ true → upper_letter c ≡ p
unfolding upper_letter
letter_upper p c h n e = ground arith

letter_upper_i :
    (c : ℕ) → same_letter b'I' c ≡ true → (upper_letter c ≡ b'I') ⊎ (upper_letter c ≡ 0x130)
unfolding upper_letter
letter_upper_i c e = ground arith

abbrev pub dotted_text : Text
dotted_text = codes "REVİSE"

abbrev plain_letters : Text → Bool
plain_letters [] = true
plain_letters (p ∷ ps) = is_upper_ascii p && (not (p == b'I') && plain_letters ps)

upper-Same : (p g : Text) → plain_letters p ≡ true → Same p g → map upper_letter g ≡ p
upper-Same [] [] h e = refl
upper-Same [] (c ∷ g) h e = absurd e
upper-Same (p ∷ ps) [] h e = absurd e
upper-Same (p ∷ ps) (c ∷ g) h e =
    cc (letter_upper p c (ground arith) (ground arith) e.0, upper-Same ps g (ground arith) e.1)

revise-upper :
    (g : Text)
    → Same revise_text g
    → (map upper_letter g ≡ revise_text) ⊎ (map upper_letter g ≡ dotted_text)
revise-upper (a ∷ b ∷ c ∷ d ∷ g) (ha, (hb, (hc, (hd, hg)))) =
    let front = upper-Same (codes "REV") (a ∷ b ∷ c ∷ []) refl (ha, (hb, (hc, tt))) in
    let back = upper-Same (codes "SE") g refl hg in
    elim (letter_upper_i d hd) [ inl e ↦ inl (cc) | inr e ↦ inr (cc) ]
revise-upper [] h = absurd h
revise-upper (a ∷ []) h = absurd h.1
revise-upper (a ∷ b ∷ []) h = absurd h.1.1
revise-upper (a ∷ b ∷ c ∷ []) h = absurd h.1.1.1

some_of : (m : ℕ × Text) {v : Text} → group_upper (some m) ≡ some v → map upper_letter m.1 ≡ v
some_of (start, g) h = cc

-- A verdict that the parser returns is ACCEPT, REVISE, or the spelling of REVISE with a dotted
-- capital I, which the case-insensitive pattern takes and `upper` keeps.
pub parse_verdict-cases :
    (u : Unicode) (s : Text) {v : Text}
    → parse_verdict u s ≡ some v
    → (v ≡ accept_text) ⊎ (v ≡ revise_text) ⊎ (v ≡ dotted_text)
unfolding parse_verdict
parse_verdict-cases u s {v = v} h = elim (Option-cases (last? (find_verdicts u 0 0 s))) [
  | inl e ↦ absurd (ground arith)
  | inr (m, e) ↦
      let p : map upper_letter m.1 ≡ v = some_of m (rw e at h) in
      elim (last?-AllGroups (find_verdicts u 0 0 s) (find_verdicts-AllGroups u 0 0 s) e) [
        | inl a ↦ inl (sym p ∙ upper-Same accept_text m.1 refl a)
        | inr r ↦
            inr (elim (revise-upper m.1 r) [ inl q ↦ inl (sym p ∙ q) | inr q ↦ inr (sym p ∙ q) ])
      ]
]
