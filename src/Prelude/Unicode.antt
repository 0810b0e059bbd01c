-- ===== src/Prelude/Unicode.antt =====
-- The character classes that Python's `str` methods and patterns ask for. The ASCII part is
-- written out. Beyond ASCII the answers are those of the Unicode database that the interpreter
-- ships, a parameter here; nothing is assumed of it.
use Prim.Native.Nat.{ℕ, ◌+◌, ◌-◌, ◌*◌}
use mathlib.Core.Bool.{Bool, true, false, ◌&&◌, ◌||◌}
use mathlib.Core.List.{[], ◌∷◌, ◌++◌}
use mathlib.Core.Option.{Option, none, some}
use minirouter.Prelude.Tests.{ltb, leb, ◌==◌, if◌then◌else◌}
use minirouter.Prelude.Str.{Text}

pub record Unicode : Type 0 where
  -- c.isalnum()
  pub alnum : ℕ → Bool
  -- c.isdigit()
  pub digit : ℕ → Bool
  -- the value of a decimal digit, which `int` reads; `isdigit` holds of more characters
  pub decimal : ℕ → Option ℕ
  -- c.lower()
  pub lower : ℕ → Text

abbrev pub is_upper_ascii : ℕ → Bool
is_upper_ascii c = leb b'A' c && leb c b'Z'

abbrev pub is_lower_ascii : ℕ → Bool
is_lower_ascii c = leb b'a' c && leb c b'z'

abbrev pub is_digit_ascii : ℕ → Bool
is_digit_ascii c = leb b'0' c && leb c b'9'

-- `\w`
unfoldable pub is_word : Unicode → ℕ → Bool
is_word u c =
    if ltb c 128
    then is_upper_ascii c || (is_lower_ascii c || (is_digit_ascii c || (c == b'_')))
    else u.alnum c

unfoldable pub is_digit : Unicode → ℕ → Bool
is_digit u c = if ltb c 128 then is_digit_ascii c else u.digit c

unfoldable pub decimal_value : Unicode → ℕ → Option ℕ
decimal_value u c =
    if ltb c 128 then (if is_digit_ascii c then some (c - b'0') else none) else u.decimal c

-- s.isdigit(): a text with no character is not one of digits
unfoldable pub all_digits : Unicode → Text → Bool
unfolding is_digit
all_digits u [] = true
all_digits u (c ∷ s) = is_digit u c && all_digits u s

unfoldable pub isdigit : Unicode → Text → Bool
unfolding all_digits
isdigit u [] = false
isdigit u (c ∷ s) = all_digits u (c ∷ s)

-- int(s) of a text of digits: `none` where it raises `ValueError`
unfoldable pub int_from : Unicode → ℕ → Text → Option ℕ
unfolding decimal_value
int_from u n [] = some n
int_from u n (c ∷ s) = elim (decimal_value u c) [ none ↦ none | some d ↦ int_from u (n * 10 + d) s ]

unfoldable pub lower_char : Unicode → ℕ → Text
lower_char u c =
    if ltb c 128 then (if is_upper_ascii c then (c + 32) ∷ [] else c ∷ []) else u.lower c

-- s.lower()
unfoldable pub lower : Unicode → Text → Text
unfolding lower_char
lower u [] = []
lower u (c ∷ s) = lower_char u c ++ lower u s

-- A database for tests: no character beyond ASCII belongs to a class, but for the superscript two,
-- which is a digit with no decimal value.
abbrev pub plain : Unicode
plain = record {
  alnum = λ c. c == 0xb2;
  digit = λ c. c == 0xb2;
  decimal = λ c. none;
  lower = λ c. c ∷ [];
}
