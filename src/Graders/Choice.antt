-- ===== src/Graders/Choice.antt =====
-- src/trinity/orchestration/reward.py, `_CHOICE_PATTERNS`, `extract_choice_letter`, `_check_choice`
-- and `_normalize_reference_letter`. A pattern at a place gives the letter of its group.
pub mod Letters
mod Tests
use minirouter.Prelude.{
  ℕ, zero, suc, ◌+◌, ◌-◌, Bool, true, false, not, ◌&&◌, ◌||◌, Option, none, some, List, [], ◌∷◌,
  map, reverse, Text, codes, text_eq, is_space, lstrip, strip, ltb, leb, ◌==◌, if◌then◌else◌,
}
use minirouter.Prelude.Unicode.{Unicode, is_word}
use minirouter.Py.{Value, nothing, truth, int, str, pos, negsuc}
use minirouter.Roles.Verifier.{literal, ends_word}
use minirouter.Graders.Scan.{
  ◌>>=◌, optional, one, sign, spaces, is_letter_i, not_before, follows, search_first, split_lines,
}

-- `[A-D]`, and the letter under re.IGNORECASE in upper case
abbrev pub is_choice_upper : ℕ → Bool
is_choice_upper c = leb b'A' c && leb c b'D'

abbrev pub upper_choice : ℕ → Option ℕ
upper_choice c =
    if is_choice_upper c then some c else if leb b'a' c && leb c b'd' then some (c - 32) else none

-- `([A-D])` ignoring case: the letter and the text behind it
unfoldable pub letter_i : Text → Option (ℕ × Text)
letter_i [] = none
letter_i (c ∷ s) = upper_choice c >>= λ l. some (l, s)

-- `\s*\(?\s*`
abbrev pub opening : Text → Text
opening s = lstrip (optional (sign b'(') (lstrip s))

-- the letter, where what follows it passes the test
abbrev pub letter_if : (Text → Bool) → Text → Option ℕ
letter_if test s = letter_i s >>= λ (l, rest). if test rest then some l else none

-- `(?:is|:)`
abbrev pub is_or_colon : Text → Option Text
is_or_colon s = elim (literal (codes "IS") s) [ none ↦ sign b':' s | some rest ↦ some rest ]

-- The first pattern. Behind its letter stands `\s*(?:[\).:]|\b)(?![A-Za-z])`, which backtracking
-- over the spaces brings down to the end of a word.
unfoldable pub answer_at : Unicode → Option ℕ → Text → Option ℕ
unfolding letter_i
answer_at u prev s = literal (codes "ANSWER") s >>= λ rest.
    letter_if (ends_word u) (opening (optional is_or_colon (lstrip rest)))

-- `\s*\)?\s*\}` behind the letter
abbrev pub closed : ℕ × Text → Option ℕ
closed (l, behind) = sign b'}' (lstrip (optional (sign b')') (lstrip behind))) >>= λ end. some l

-- `\\boxed\s*\{\s*\(?\s*([A-D])\s*\)?\s*\}`
unfoldable pub boxed_at : Option ℕ → Text → Option ℕ
unfolding letter_i
boxed_at prev s =
    literal (codes "\\BOXED") s
    >>= (λ rest. sign b'{' (lstrip rest))
    >>= (λ inner. letter_i (opening inner))
    >>= closed

-- `[:=]`
abbrev pub mark : Text → Option Text
mark s = one (λ c. (c == b':') || (c == b'=')) s

-- `\bfinal\s+answer\s*[:=]?\s*\(?\s*([A-D])(?![A-Za-z])`
unfoldable pub final_at : Unicode → Option ℕ → Text → Option ℕ
unfolding letter_i
final_at u prev s =
    if follows (is_word u) prev
    then none
    else (literal (codes "FINAL") s >>= spaces >>= literal (codes "ANSWER") >>= λ rest.
        letter_if (not_before is_letter_i) (opening (optional mark (lstrip rest))))

-- `\boption\s*\(?\s*([A-D])(?![A-Za-z])`
unfoldable pub option_at : Unicode → Option ℕ → Text → Option ℕ
unfolding letter_i
option_at u prev s =
    if follows (is_word u) prev
    then none
    else (literal (codes "OPTION") s >>= λ rest. letter_if (not_before is_letter_i) (opening rest))

-- `^` with re.M
abbrev pub at_line_start : Option ℕ → Bool
at_line_start none = true
at_line_start (some c) = c == 10

abbrev pub upper_letter_only : Text → Option (ℕ × Text)
upper_letter_only [] = none
upper_letter_only (c ∷ s) = if is_choice_upper c then some (c, s) else none

-- `\s*[\).:]` behind the letter
abbrev pub marked : ℕ × Text → Option ℕ
marked (l, rest) =
    one (λ c. (c == b')') || ((c == b'.') || (c == b':'))) (lstrip rest) >>= λ end. some l

-- `^\s*\(?\s*([A-D])\s*[\).:]`, with case
unfoldable pub line_at : Option ℕ → Text → Option ℕ
line_at prev s = if at_line_start prev then upper_letter_only (opening s) >>= marked else none

abbrev pub or_else {ℓ} : {A : Type ℓ} → Option A → Option A → Option A
or_else none b = b
or_else (some a) b = some a

-- the loop over `_CHOICE_PATTERNS`
unfoldable pub by_patterns : Unicode → Text → Option ℕ
unfolding answer_at boxed_at final_at option_at line_at search_first
by_patterns u text = or_else (search_first (answer_at u) none text) (
    or_else (search_first boxed_at none text) (
      or_else (search_first (final_at u) none text)
        (or_else (search_first (option_at u) none text) (search_first line_at none text))))

abbrev pub at_end : ℕ → Text → Option ℕ
at_end l [] = some l
at_end l (c ∷ s) = none

-- `\s*\)?[.:]?`
abbrev pub ending : Text → Text
ending rest = optional (one (λ c. (c == b'.') || (c == b':'))) (optional (sign b')') (lstrip rest))

-- `re.fullmatch(r"\(?\s*([A-D])\s*\)?[.:]?", line, re.I)`
unfoldable pub whole_line : Text → Option ℕ
unfolding letter_i
whole_line s = letter_i (lstrip (optional (sign b'(') s)) >>= λ (l, rest). at_end l (ending rest)

-- the last of the stripped lines that is not empty
unfoldable pub last_line : List Text → Option Text
last_line [] = none
last_line (l ∷ ls) =
    let later = last_line ls in
    elim later [ some x ↦ some x | none ↦ elim (strip l) [ [] ↦ none | c ∷ s ↦ some (c ∷ s) ] ]

unfoldable pub extract_choice_letter : Unicode → Text → Option ℕ
unfolding by_patterns whole_line last_line split_lines
extract_choice_letter u text =
    or_else (by_patterns u text) (last_line (split_lines text) >>= whole_line)

-- the letters that a stripped reference may be
abbrev single_choice : Text → Option ℕ
single_choice (c ∷ []) = upper_choice c
single_choice _ = none

-- `_normalize_reference_letter`; `s.strip().upper()` of one letter
unfoldable pub normalize_reference_letter : Unicode → Value → Option ℕ
unfolding extract_choice_letter
normalize_reference_letter u (str s) = or_else (extract_choice_letter u s) (single_choice (strip s))
normalize_reference_letter u (int (pos n)) = if ltb n 4 then some (65 + n) else none
normalize_reference_letter u _ = none

abbrev same_choice : Option ℕ → Option ℕ → Bool
same_choice (some a) (some b) = a == b
same_choice _ _ = false

unfoldable pub check_choice : Unicode → Text → Value → Bool
unfolding normalize_reference_letter
check_choice u candidate reference =
    same_choice (extract_choice_letter u candidate) (normalize_reference_letter u reference)
