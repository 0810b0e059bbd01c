-- ===== src/Roles/Postprocess/Bounds.antt =====
-- The budget of a transcript output, and what it keeps.
use minirouter.Prelude.{
  ℕ, ◌+◌, ◌-◌, ◌/◌, ◌≤◌, ◌<◌, ◌≡◌, refl, Option, some, [], ◌++◌, arith, Text, length, length-append,
  length-take, length-drop, take, drop, zero, suc, List, ◌∷◌, strip, take-append,
}
use mathlib.Core.List.{append_assoc}
use native.Mathlib.Decide.{dec_le}
use minirouter.Types.{Role}
use minirouter.Roles.Postprocess.{elision_marker, stripped, elide, truncate, postprocess}

pub length-elision_marker : length elision_marker ≡ 21
unfolding elision_marker
length-elision_marker = refl

-- Past the marker's length an elided text has exactly `m` characters.
pub length-elide : (text : Text) (m : ℕ) → 21 < m → m < length text → length (elide text m) ≡ m
unfolding elide
length-elide text m h k =
    rw
      (
        length-append (take ((m - length elision_marker) / 2) text) (
            elision_marker
            ++ drop (length text - (m - length elision_marker - (m - length elision_marker) / 2))
                text),
        length-append elision_marker (
            drop (length text - (m - length elision_marker - (m - length elision_marker) / 2))
              text),
        length-take ((m - length elision_marker) / 2) text,
        length-drop (length text - (m - length elision_marker - (m - length elision_marker) / 2))
            text,
        length-elision_marker,
      )
      (omega arith)

pub truncate_fits : (text : Text) (m : ℕ) → length text ≤ m → truncate text m ≡ text
unfolding truncate
truncate_fits text m h = ground arith

pub truncate_unbounded : (text : Text) → truncate text 0 ≡ text
unfolding truncate
truncate_unbounded text = refl

pub truncate_hard :
    (text : Text) (m : ℕ) → 0 < m → m < length text → m ≤ 21 → truncate text m ≡ take m text
unfolding truncate
truncate_hard text m h k l = ground (arith, length-elision_marker)

pub truncate_elided :
    (text : Text) (m : ℕ) → 21 < m → m < length text → truncate text m ≡ elide text m
unfolding truncate
truncate_elided text m h k = ground (arith, length-elision_marker)

length-truncate-le : (text : Text) (m : ℕ) → 0 < m → length (truncate text m) ≤ m
length-truncate-le text m h = elim (dec_le (length text) m) [
  | yes p ↦ rw (truncate_fits text m p) p
  | no p ↦ elim (dec_le m 21) [
    | yes q ↦ rw (truncate_hard text m h (omega arith) q) (omega (arith, length-take m text))
    | no q ↦
        rw (truncate_elided text m (omega arith) (omega arith))
          (omega (arith, length-elide text m (omega arith) (omega arith)))
  ]
]

-- With a positive budget the output has at most that many characters, whatever the model wrote.
pub length-postprocess-le :
    (raw : Option Text) (role : Role) (m : ℕ) → 0 < m → length (postprocess raw role m) ≤ m
unfolding postprocess
length-postprocess-le raw role m h = length-truncate-le (stripped raw) m h

drop-append {ℓ} :
    {A : Type ℓ} (n : ℕ) (xs ys : List A) → n ≤ length xs → drop n (xs ++ ys) ≡ drop n xs ++ ys
drop-append zero xs ys h = refl
drop-append (suc n) [] ys h = absurd (omega arith)
drop-append (suc n) (x ∷ xs) ys h = drop-append n xs ys (omega arith)

take-append_past {ℓ} :
    {A : Type ℓ} (n : ℕ) (xs ys : List A)
    → length xs ≤ n
    → take n (xs ++ ys) ≡ xs ++ take (n - length xs) ys
take-append_past n xs ys h =
    let e : length xs + (n - length xs) ≡ n = omega arith in
    rw e at (take-append xs ys (n - length xs))

elide_ends :
    (m : ℕ) (front middle back : Text)
    → 21 < m
    → m < length (front ++ (middle ++ back))
    → length front ≤ (m - 21) / 2
    → length back ≤ m - 21 - (m - 21) / 2
    → (rest : Text) × (elide (front ++ (middle ++ back)) m ≡ front ++ (rest ++ back))
unfolding elide
elide_ends m front middle back h k lf lb =
    let hl : ℕ = (m - 21) / 2 in
    let d : ℕ = length (front ++ (middle ++ back)) - (m - 21 - (m - 21) / 2) in
    let fits : d ≤ length (front ++ middle) = omega (
      arith,
      length-append front (middle ++ back),
      length-append middle back,
      length-append front middle,
    ) in
    let head = take-append_past hl front (middle ++ back) lf in
    let end = drop-append d (front ++ middle) back fits in
    let end' = rw (append_assoc front middle back) at end in
    (
      take (hl - length front) (middle ++ back) ++ (elision_marker ++ drop d (front ++ middle)),
      rw (length-elision_marker, head, end') (simp append_assoc),
    )

-- An output over the budget keeps every front of up to half of what the marker leaves, and every
-- end of up to the other half, rounded up: so a final answer or a verdict line there survives.
pub postprocess_ends :
    (raw : Text) (role : Role) (m : ℕ) (front middle back : Text)
    → 21 < m
    → strip raw ≡ front ++ (middle ++ back)
    → m < length (strip raw)
    → length front ≤ (m - 21) / 2
    → length back ≤ m - 21 - (m - 21) / 2
    → (rest : Text) × (postprocess (some raw) role m ≡ front ++ (rest ++ back))
unfolding postprocess
postprocess_ends raw role m front middle back h e k lf lb =
    let k' : m < length (front ++ (middle ++ back)) = rw e at k in
    let (rest, p) = elide_ends m front middle back h k' lf lb in
    (rest, rw (truncate_elided (strip raw) m h k, e) p)
