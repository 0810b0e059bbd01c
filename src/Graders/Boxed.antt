-- ===== src/Graders/Boxed.antt =====
-- src/trinity/orchestration/reward.py, `extract_boxed`. The index `idx` is the text from it on.
pub mod Bounds
pub mod Balanced
pub mod Laws
mod Tests
use minirouter.Prelude.{
  ℕ, zero, suc, Option, none, some, List, [], ◌∷◌, Text, codes, strip, length, ◌==◌, ◌||◌,
  if◌then◌else◌,
}

abbrev pub marker : Text
marker = codes "\\boxed"

-- The text behind a literal that it starts with.
unfoldable pub behind_prefix : Text → Text → Option Text
behind_prefix [] s = some s
behind_prefix (p ∷ ps) [] = none
behind_prefix (p ∷ ps) (c ∷ s) = if p == c then behind_prefix ps s else none

-- `text.find(marker, idx)`: the text behind the first place of the literal.
unfoldable pub behind : Text → Text → Option Text
unfolding behind_prefix
behind m [] = behind_prefix m []
behind m (c ∷ s) =
    let later = behind m s in
    elim (behind_prefix m (c ∷ s)) [ some rest ↦ some rest | none ↦ later ]

-- the blanks between the marker and the brace
unfoldable pub skip_blanks : Text → Text
skip_blanks [] = []
skip_blanks (c ∷ s) = if (c == b' ') || (c == b'\t') then skip_blanks s else c ∷ s

-- One more character of the content.
abbrev pub with_front : ℕ → Option (Text × Text) → Option (Text × Text)
with_front c none = none
with_front c (some (inner, rest)) = some (c ∷ inner, rest)

-- what a character is to the scan
pub data Sign : Type 0 where
  opens closes other : Sign

abbrev pub sign_of : ℕ → Sign
sign_of c = if c == b'{' then opens else if c == b'}' then closes else other

-- The scan behind an opening brace, `depth` braces further in: the content up to the brace that
-- closes the first one, and the text behind it.
unfoldable pub inner_of : ℕ → Text → Option (Text × Text)
inner_of depth [] = none
inner_of depth (c ∷ s) = elim (sign_of c) [
  | opens ↦ with_front c (inner_of (suc depth) s)
  | closes ↦ elim depth [ zero ↦ some ([], s) | suc d ↦ with_front c (inner_of d s) ]
  | other ↦ with_front c (inner_of depth s)
]

-- What a marker is followed by.
pub data Found : Type 0 where
  -- no brace, or none that closes it
  unbraced : Found
  unbalanced : Found
  boxed : Text → Text → Found

abbrev pub content : Option (Text × Text) → Found
content none = unbalanced
content (some (inner, rest)) = boxed inner rest

unfoldable pub braced : Text → Found
unfolding inner_of
braced [] = unbraced
braced (c ∷ s) = if c == b'{' then content (inner_of zero s) else unbraced

abbrev pub with_result : Text → Option (List Text) → Option (List Text)
with_result t none = none
with_result t (some ts) = some (t ∷ ts)

-- The `while True`, which is none only where the fuel runs out.
unfoldable pub boxed_contents : ℕ → Text → Option (List Text)
unfolding behind skip_blanks braced
boxed_contents zero s = none
boxed_contents (suc n) s = elim (behind marker s) [
  | none ↦ some []
  | some t ↦ elim (braced (skip_blanks t)) [
    | unbraced ↦ boxed_contents n t
    | unbalanced ↦ some []
    | boxed inner rest ↦ with_result (strip inner) (boxed_contents n rest)
  ]
]

abbrev pub last : List Text → Option Text
last [] = none
last (t ∷ []) = some t
last (t ∷ (u ∷ us)) = last (u ∷ us)

abbrev pub last_result : Option (List Text) → Option Text
last_result none = none
last_result (some ts) = last ts

-- The fuel is the length of the text and one more, and Graders/Boxed/Bounds shows that it is enough.
unfoldable pub extract_boxed : Text → Option Text
unfolding boxed_contents
extract_boxed text = last_result (boxed_contents (suc (length text)) text)
