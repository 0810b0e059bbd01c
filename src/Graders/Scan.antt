-- ===== src/Graders/Scan.antt =====
-- The parts of the patterns: literals, optional signs, runs of characters, and searches.
use minirouter.Prelude.{
  ℕ, Bool, true, false, not, ◌&&◌, ◌||◌, Option, none, some, List, [], ◌∷◌, Text, is_space, lstrip,
  leb, ◌==◌, if◌then◌else◌,
}
use minirouter.Prelude.Unicode.{Unicode, is_upper_ascii, is_lower_ascii, decimal_value}

-- a text that a search of the pattern begins at: the character in front, and the text
abbrev pub Place : Type 0
Place = Option ℕ × Text

abbrev pub bind {ℓ κ} : {A : Type ℓ} {B : Type κ} → Option A → (A → Option B) → Option B
bind none f = none
bind (some a) f = f a

infixl 5 ◌>>=◌
abbrev pub ◌>>=◌ {ℓ κ} : {A : Type ℓ} {B : Type κ} → Option A → (A → Option B) → Option B
a >>= f = bind a f

-- An optional part: the text behind it, or the text itself.
abbrev pub optional : (Text → Option Text) → Text → Text
optional part s = elim (part s) [ none ↦ s | some rest ↦ rest ]

-- one character that passes a test
abbrev pub one : (ℕ → Bool) → Text → Option Text
one test [] = none
one test (c ∷ s) = if test c then some s else none

abbrev pub sign : ℕ → Text → Option Text
sign p s = one (λ c. c == p) s

-- `\s+`
abbrev pub spaces : Text → Option Text
spaces s = one is_space s >>= λ rest. some (lstrip rest)

-- `\d`
abbrev pub is_decimal : Unicode → ℕ → Bool
is_decimal u c = elim (decimal_value u c) [ none ↦ false | some d ↦ true ]

-- The text behind a run of decimal digits, which may be empty.
unfoldable pub skip_digits : Unicode → Text → Text
skip_digits u [] = []
skip_digits u (c ∷ s) = if is_decimal u c then skip_digits u s else c ∷ s

-- `\d+`
abbrev pub digits : Unicode → Text → Option Text
digits u s = one (is_decimal u) s >>= λ rest. some (skip_digits u rest)

-- `[A-Za-z]` under re.IGNORECASE, which adds four characters
abbrev pub is_letter_i : ℕ → Bool
is_letter_i c =
    is_upper_ascii c
    || (is_lower_ascii c || ((c == 0x130) || ((c == 0x131) || ((c == 0x17f) || (c == 0x212a)))))

-- no character of the class follows
abbrev pub not_before : (ℕ → Bool) → Text → Bool
not_before test [] = true
not_before test (c ∷ s) = not (test c)

-- the character in front is of the class
abbrev pub follows : (ℕ → Bool) → Option ℕ → Bool
follows test none = false
follows test (some c) = test c

-- `pattern.search(text)`: the first place that the pattern takes.
unfoldable pub search_first {ℓ} :
    {A : Type ℓ} → (Option ℕ → Text → Option A) → Option ℕ → Text → Option A
search_first at prev [] = at prev []
search_first at prev (c ∷ s) =
    let later = search_first at (some c) s in
    elim (at prev (c ∷ s)) [ none ↦ later | some a ↦ some a ]

-- str.splitlines(), on the characters that end a line; `\r\n` is one of them
abbrev pub is_line_break : ℕ → Bool
is_line_break c =
    (leb 10 c && leb c 13)
    || ((leb 0x1c c && leb c 0x1e) || ((c == 0x85) || ((c == 0x2028) || (c == 0x2029))))

abbrev add_to_first : ℕ → List Text → List Text
add_to_first c [] = (c ∷ []) ∷ []
add_to_first c (l ∷ ls) = (c ∷ l) ∷ ls

-- The second `\n` of a `\r\n` is passed over, as the empty line between them has no content: the
-- lines with content are those of `splitlines`.
unfoldable pub split_lines : Text → List Text
split_lines [] = []
split_lines (c ∷ s) =
    let rest = split_lines s in if is_line_break c then [] ∷ rest else add_to_first c rest
