-- ===== src/Graders/Boxed/Laws.antt =====
-- What the search finds in a text with boxes.
use minirouter.Prelude.{
  ℕ, zero, suc, ◌<◌, ◌≤◌, ◌≡◌, refl, ap, ◌∙◌, some, List, [], ◌∷◌, ◌++◌, map, Text, strip, length,
  arith,
}
use mathlib.Core.List.{append-nil}
use minirouter.Graders.Boxed.{
  marker, behind, skip_blanks, inner_of, boxed, content, braced, boxed_contents, last, last_result,
  extract_boxed,
}
use minirouter.Graders.Boxed.Balanced.{
  IsBalanced, IsPlain, with_text-some, inner_of-IsBalanced, behind-IsPlain, behind-absent,
}

-- a box of a text: what stands in front of it, and what is in its braces
pub record Box : Type 0 where
  pub front : Text
  pub inside : Text

-- The text that boxes and what is behind the last of them make.
unfoldable pub written : List Box → Text → Text
written [] tail = tail
written (b ∷ bs) tail = b.front ++ (marker ++ (b'{' ∷ (b.inside ++ (b'}' ∷ written bs tail))))

pub record IsBox (b : Box) : Type 0 where
  pub front : IsPlain b.front
  pub inside : IsBalanced b.inside

pub data AreBoxes : List Box → Type 0 where
  no_box : AreBoxes []
  box : {b : Box} {bs : List Box} → IsBox b → AreBoxes bs → AreBoxes (b ∷ bs)

abbrev pub answer : Box → Text
answer b = strip b.inside

braced-IsBalanced :
    {a : Text} (rest : Text) → IsBalanced a → braced (b'{' ∷ (a ++ (b'}' ∷ rest))) ≡ boxed a rest
unfolding braced inner_of
braced-IsBalanced {a = a} rest h =
    let scan : inner_of zero (a ++ (b'}' ∷ rest)) ≡ some (a, rest) =
      inner_of-IsBalanced zero (b'}' ∷ rest) h
      ∙ with_text-some a [] rest
      ∙ ap (λ x. some (x, rest)) (append-nil a) in
    ap content scan

-- The search of a text with boxes gives their contents, in their order.
boxed_contents-written :
    (n : ℕ) {bs : List Box} {tail : Text}
    → length bs < n
    → AreBoxes bs
    → IsPlain tail
    → boxed_contents n (written bs tail) ≡ some (map answer bs)
unfolding boxed_contents written skip_blanks
boxed_contents-written zero h k p = absurd (omega arith)
boxed_contents-written (suc n) h no_box p = rw (behind-absent p, boxed_contents) refl
boxed_contents-written (suc n) {tail = tail} h (box {b = b} {bs = bs} k ks) p =
    let rest = b.inside ++ (b'}' ∷ written bs tail) in
    let found : behind marker (written (b ∷ bs) tail) ≡ some (b'{' ∷ rest) =
      behind-IsPlain (b'{' ∷ rest) k.front in
    let inner = braced-IsBalanced (written bs tail) k.inside in
    let later = boxed_contents-written n (omega arith) ks p in
    rw (found, boxed_contents) (rw inner (rw later refl))

length-behind : (t s : Text) → length s ≤ length (t ++ s)
length-behind [] s = omega arith
length-behind (c ∷ t) s = let k = length-behind t s in omega arith

length-written : (bs : List Box) (tail : Text) → length bs ≤ length (written bs tail)
unfolding written
length-written [] tail = omega arith
length-written (b ∷ bs) tail =
    let rest = b'}' ∷ written bs tail in
    let later = length-written bs tail in
    let inside = length-behind b.inside rest in
    let whole = length-behind b.front (marker ++ (b'{' ∷ (b.inside ++ rest))) in omega arith

-- In a text of boxes whose braces pair up, with no backslash outside them, the answer is the
-- content of the last box, stripped, and there is none where there is no box.
pub extract_boxed-written :
    {bs : List Box} {tail : Text}
    → AreBoxes bs
    → IsPlain tail
    → extract_boxed (written bs tail) ≡ last (map answer bs)
unfolding extract_boxed
extract_boxed-written {bs = bs} {tail = tail} k p =
    let enough = length-written bs tail in
    ap last_result (boxed_contents-written (suc (length (written bs tail))) (omega arith) k p)
