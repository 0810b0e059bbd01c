-- ===== src/Graders/Number.antt =====
-- src/trinity/orchestration/reward.py, `extract_last_number`. A part of the pattern gives the
-- text that it takes and the text behind that.
pub mod Laws
mod Tests
use minirouter.Prelude.{
  ℕ, zero, suc, ◌-◌, Bool, true, false, not, Option, none, some, List, [], ◌∷◌, ◌++◌, Text,
  is_space, length, ◌==◌, if◌then◌else◌,
}
use minirouter.Prelude.Unicode.{Unicode}
use minirouter.Graders.Scan.{bind, is_decimal}

abbrev pub Part : Type 0
Part = Text → Option (Text × Text)

abbrev pub then_front : ℕ → Text × Text → Text × Text
then_front c (m, r) = (c ∷ m, r)

-- `[class]*`
unfoldable pub span : (ℕ → Bool) → Text → Text × Text
span test [] = ([], [])
span test (c ∷ s) = if test c then then_front c (span test s) else ([], c ∷ s)

-- `[class]+`
abbrev pub span1 : (ℕ → Bool) → Part
span1 test [] = none
span1 test (c ∷ s) = if test c then some (then_front c (span test s)) else none

-- one literal character
abbrev pub char : ℕ → Part
char p [] = none
char p (c ∷ s) = if c == p then some (c ∷ [], s) else none

infixr 6 ◌then◌
-- one part, and the next behind it
abbrev pub ◌then◌ : Part → Part → Part
(p then q) s = bind (p s) (λ x. bind (q x.1) (λ y. some (x.0 ++ y.0, y.1)))

-- `(...)?`
abbrev pub maybe : Part → Part
maybe p s = elim (p s) [ some x ↦ some x | none ↦ some ([], s) ]

abbrev pub either : Part → Part → Part
either p q s = elim (p s) [ some x ↦ some x | none ↦ q s ]

abbrev blanks : Part
blanks s = some (span is_space s)

-- `-?\d+`
abbrev pub signed : Unicode → Part
signed u = maybe (char b'-') then span1 (is_decimal u)

-- `-?\d+\s*/\s*-?\d+`
abbrev pub fraction : Unicode → Part
fraction u = signed u then (blanks then (char b'/' then (blanks then signed u)))

-- one decimal digit
abbrev pub digit : Unicode → Part
digit u [] = none
digit u (c ∷ s) = if is_decimal u c then some (c ∷ [], s) else none

-- `,\d{3}`
abbrev pub thousand : Unicode → Part
thousand u = char b',' then (digit u then (digit u then digit u))

-- `(?:,\d{3})*`, whose number is bounded by the fuel: each takes four characters
unfoldable pub thousands : ℕ → Unicode → Part
thousands zero u s = some ([], s)
thousands (suc n) u s = maybe (thousand u then thousands n u) s

-- `\d{1,3}(?:,\d{3})+`; with fewer digits than there are the comma is not next
abbrev pub grouped : Unicode → Part
grouped u s =
    (digit u
        then (maybe (digit u) then (maybe (digit u) then (thousand u then thousands (length s) u))))
      s

-- `-?(?:\d{1,3}(?:,\d{3})+|\d+)(?:\.\d+)?`
abbrev pub number : Unicode → Part
number u =
    maybe (char b'-')
    then (either (grouped u) (span1 (is_decimal u))
        then maybe (char b'.' then span1 (is_decimal u)))

-- `-?\.\d+`
abbrev pub point : Unicode → Part
point u = maybe (char b'-') then (char b'.' then span1 (is_decimal u))

unfoldable pub number_at : Unicode → Part
unfolding span thousands
number_at u = either (fraction u) (either (number u) (point u))

-- `pattern.findall`: the search goes on behind a match, whose characters are passed over.
unfoldable pub find_all : Part → ℕ → Text → List Text
find_all p skip [] = []
find_all p (suc k) (c ∷ s) = find_all p k s
find_all p zero (c ∷ s) = elim (p (c ∷ s)) [
  | some x ↦ x.0 ∷ find_all p (length x.0 - 1) s
  | none ↦ find_all p zero s
]

-- `.replace(",", "").replace(" ", "")`
unfoldable pub without_marks : Text → Text
without_marks [] = []
without_marks (c ∷ s) =
    let rest = without_marks s in if c == b',' then rest else if c == b' ' then rest else c ∷ rest

unfoldable pub last_number : List Text → Option Text
unfolding without_marks
last_number [] = none
last_number (t ∷ []) = some (without_marks t)
last_number (t ∷ (v ∷ vs)) = last_number (v ∷ vs)

unfoldable pub extract_last_number : Unicode → Text → Option Text
unfolding number_at find_all last_number
extract_last_number u text = last_number (find_all (number_at u) zero text)
