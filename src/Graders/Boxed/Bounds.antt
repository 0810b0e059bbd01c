-- ===== src/Graders/Boxed/Bounds.antt =====
-- The search for a boxed answer ends: each step goes on with a shorter text.
use minirouter.Prelude.{
  ℕ, zero, suc, ◌≤◌, ◌<◌, ◌≢◌, refl, Bool-cases, Option, none, some, List, [], ◌∷◌, Text, codes,
  strip, length, ◌==◌, ◌||◌, arith, inl, inr,
}
use minirouter.Graders.Boxed.{
  marker, behind_prefix, behind, skip_blanks, with_front, inner_of, Sign, opens, closes, other,
  sign_of, Found, unbraced, unbalanced, boxed, content, braced, with_result, boxed_contents,
}

-- What is left over is no longer than a bound.
abbrev Within : ℕ → Option Text → Type 0
Within n none = Unit
Within n (some t) = length t ≤ n

abbrev RestWithin : ℕ → Option (Text × Text) → Type 0
RestWithin n none = Unit
RestWithin n (some p) = length p.1 ≤ n

abbrev FoundWithin : ℕ → Found → Type 0
FoundWithin n (boxed inner rest) = length rest ≤ n
FoundWithin n _ = Unit

Within-mono : (m n : ℕ) (o : Option Text) → m ≤ n → Within m o → Within n o
Within-mono m n none h k = tt
Within-mono m n (some t) h k = omega arith

behind_prefix-Within : (m s : Text) → Within (length s) (behind_prefix m s)
unfolding behind_prefix
behind_prefix-Within [] s = omega arith
behind_prefix-Within (p ∷ ps) [] = tt
behind_prefix-Within (p ∷ ps) (c ∷ s) = elim (Bool-cases (p == c)) [
  | inl e ↦ rw e (
      Within-mono (length s) (suc (length s)) (behind_prefix ps s) (omega arith)
        (behind_prefix-Within ps s))
  | inr e ↦ rw e tt
]

-- A literal takes the first character away.
behind_prefix-shorter :
    (p : ℕ) (ps : Text) (c : ℕ) (s : Text) → Within (length s) (behind_prefix (p ∷ ps) (c ∷ s))
unfolding behind_prefix
behind_prefix-shorter p ps c s = elim (Bool-cases (p == c)) [
  | inl e ↦ rw e (behind_prefix-Within ps s)
  | inr e ↦ rw e tt
]

abbrev Shorter : ℕ → Option Text → Type 0
Shorter n none = Unit
Shorter n (some t) = length t < n

-- Behind a marker the text is shorter.
behind-Shorter : (p : ℕ) (ps s : Text) → Shorter (length s) (behind (p ∷ ps) s)
unfolding behind behind_prefix
behind-Shorter p ps [] = tt
behind-Shorter p ps (c ∷ s) =
    go (behind_prefix (p ∷ ps) (c ∷ s)) (behind (p ∷ ps) s) (behind_prefix-shorter p ps c s)
      (behind-Shorter p ps s)
  where
    go :
        (o later : Option Text)
        → Within (length s) o
        → Shorter (length s) later
        → Shorter (suc (length s)) (elim o [ some rest ↦ some rest | none ↦ later ])
    go none none k r = tt
    go none (some t) k r = omega arith
    go (some t) later k r = omega arith

skip_blanks-shorter : (s : Text) → length (skip_blanks s) ≤ length s
unfolding skip_blanks
skip_blanks-shorter [] = omega arith
skip_blanks-shorter (c ∷ s) = elim (Bool-cases ((c == b' ') || (c == b'\t'))) [
  | inl e ↦ rw e (let k = skip_blanks-shorter s in omega arith)
  | inr e ↦ rw e (omega arith)
]

with_front-RestWithin :
    (m n c : ℕ) (o : Option (Text × Text)) → m ≤ n → RestWithin m o → RestWithin n (with_front c o)
with_front-RestWithin m n c none h k = tt
with_front-RestWithin m n c (some p) h k = omega arith

inner_of-RestWithin : (depth : ℕ) (s : Text) → RestWithin (length s) (inner_of depth s)
unfolding inner_of
inner_of-RestWithin depth [] = tt
inner_of-RestWithin depth (c ∷ s) = go (sign_of c) depth (λ d.
    with_front-RestWithin (length s) (suc (length s)) c (inner_of d s) (omega arith)
      (inner_of-RestWithin d s))
  where
    go :
        (k : Sign) (d : ℕ)
        → ((e : ℕ) → RestWithin (suc (length s)) (with_front c (inner_of e s)))
        → RestWithin (suc (length s)) (elim k [
          | opens ↦ with_front c (inner_of (suc d) s)
          | closes ↦ elim d [ zero ↦ some ([], s) | suc e ↦ with_front c (inner_of e s) ]
          | other ↦ with_front c (inner_of d s)
        ])
    go opens d h = h (suc d)
    go closes zero h = omega arith
    go closes (suc e) h = h e
    go other d h = h d

content-FoundWithin :
    (n : ℕ) (o : Option (Text × Text)) → RestWithin n o → FoundWithin n (content o)
content-FoundWithin n none h = tt
content-FoundWithin n (some p) h = h

FoundWithin-mono : (m n : ℕ) (f : Found) → m ≤ n → FoundWithin m f → FoundWithin n f
FoundWithin-mono m n unbraced h k = tt
FoundWithin-mono m n unbalanced h k = tt
FoundWithin-mono m n (boxed inner rest) h k = omega arith

braced-FoundWithin : (s : Text) → FoundWithin (length s) (braced s)
unfolding braced
braced-FoundWithin [] = tt
braced-FoundWithin (c ∷ s) = elim (Bool-cases (c == b'{')) [
  | inl e ↦ rw e (
      FoundWithin-mono (length s) (suc (length s)) (content (inner_of zero s)) (omega arith)
        (content-FoundWithin (length s) (inner_of zero s) (inner_of-RestWithin zero s)))
  | inr e ↦ rw e tt
]

with_result-none : (t : Text) (o : Option (List Text)) → o ≢ none → with_result t o ≢ none
with_result-none t none h e = h refl
with_result-none t (some ts) h e = cc

-- The search for boxed answers ends: fuel above the length of the text gives it a result.
pub boxed_contents-total : (n : ℕ) (s : Text) → length s < n → boxed_contents n s ≢ none
unfolding boxed_contents
boxed_contents-total zero s h = absurd (omega arith)
boxed_contents-total (suc n) s h =
    go (behind marker s) (behind-Shorter b'\\' (codes "boxed") s)
      (λ t k. boxed_contents-total n t (omega arith))
  where
    into :
        (t : Text) (f : Found)
        → FoundWithin (length t) f
        → ((r : Text) → length r ≤ length t → boxed_contents n r ≢ none)
        → elim f [
          | unbraced ↦ boxed_contents n t
          | unbalanced ↦ some []
          | boxed inner rest ↦ with_result (strip inner) (boxed_contents n rest)
        ]
          ≢ none
    into t unbraced k rec = rec t (omega arith)
    into t unbalanced k rec = λ e. cc
    into t (boxed inner rest) k rec =
        with_result-none (strip inner) (boxed_contents n rest) (rec rest k)

    go :
        (o : Option Text)
        → Shorter (length s) o
        → ((t : Text) → length t < length s → boxed_contents n t ≢ none)
        → elim o [
          | none ↦ some []
          | some t ↦ elim (braced (skip_blanks t)) [
            | unbraced ↦ boxed_contents n t
            | unbalanced ↦ some []
            | boxed inner rest ↦ with_result (strip inner) (boxed_contents n rest)
          ]
        ]
          ≢ none
    go none k rec = λ e. cc
    go (some t) k rec =
        let after = skip_blanks-shorter t in
        into t (braced (skip_blanks t))
          (FoundWithin-mono (length (skip_blanks t)) (length t) (braced (skip_blanks t)) after
            (braced-FoundWithin (skip_blanks t)))
          (λ r q. rec r (omega arith))
