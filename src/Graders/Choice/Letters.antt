-- ===== src/Graders/Choice/Letters.antt =====
-- What the extraction of a choice can be.
use minirouter.Prelude.{
  ℕ, ◌≤◌, ◌≡◌, refl, Bool, true, false, ◌&&◌, ◌||◌, Option, none, some, [], ◌∷◌, arith, inl, inr,
  Text, codes, lstrip, leb, Bool-cases, ◌==◌, if◌then◌else◌,
}
use minirouter.Prelude.Unicode.{Unicode, is_word}
use minirouter.Roles.Verifier.{literal, ends_word}
use minirouter.Graders.Scan.{
  bind, search_first, split_lines, one, sign, spaces, optional, not_before, is_letter_i, follows,
}
use minirouter.Graders.Choice.{
  upper_choice, is_choice_upper, letter_i, letter_if, answer_at, boxed_at, final_at, option_at,
  line_at, mark, is_or_colon, opening, closed, marked, ending, at_line_start, or_else, by_patterns,
  whole_line, last_line, extract_choice_letter, upper_letter_only, at_end,
}

-- A letter from A to D.
abbrev pub IsLetter : ℕ → Type 0
IsLetter l = (b'A' ≤ l) × (l ≤ b'D')

abbrev Letters : Option ℕ → Type 0
Letters none = Unit
Letters (some l) = IsLetter l

upper_choice-Letters : (c : ℕ) → Letters (upper_choice c)
upper_choice-Letters c = elim (Bool-cases (is_choice_upper c)) [
  | inl e ↦ rw e (ground arith, ground arith)
  | inr e ↦ elim (Bool-cases (leb b'a' c && leb c b'd')) [
    | inl q ↦ rw (e, q) (ground arith, ground arith)
    | inr q ↦ rw (e, q) tt
  ]
]

-- A step that keeps the letter or gives none.
bind-Letters :
    {A : Type 0} (o : Option A) (f : A → Option ℕ)
    → ((a : A) → o ≡ some a → Letters (f a))
    → Letters (bind o f)
bind-Letters none f h = tt
bind-Letters (some a) f h = h a refl

or_else-Letters : (a b : Option ℕ) → Letters a → Letters b → Letters (or_else a b)
or_else-Letters none b h k = k
or_else-Letters (some l) b h k = h

if-Letters : (b : Bool) (l : ℕ) → IsLetter l → Letters (if b then some l else none)
if-Letters true l h = h
if-Letters false l h = tt

-- A letter that was read, with the text behind it.
abbrev Reads : Option (ℕ × Text) → Type 0
Reads none = Unit
Reads (some p) = IsLetter p.0

letter_i-Reads : (s : Text) → Reads (letter_i s)
unfolding letter_i
letter_i-Reads [] = tt
letter_i-Reads (c ∷ s) = go (upper_choice c) (upper_choice-Letters c)
  where
    go : (o : Option ℕ) → Letters o → Reads (bind {B = ℕ × Text} o (λ x. some (x, s)))
    go none k = tt
    go (some x) k = k

-- What follows a letter that was read may only keep it.
abbrev Keeps : (ℕ × Text → Option ℕ) → Type 0
Keeps f = (p : ℕ × Text) → IsLetter p.0 → Letters (f p)

Reads-Letters :
    (o : Option (ℕ × Text)) (f : ℕ × Text → Option ℕ) → Reads o → Keeps f → Letters (bind o f)
Reads-Letters none f h k = tt
Reads-Letters (some p) f h k = k p h

kept-Letters : (o : Option Text) (l : ℕ) → IsLetter l → Letters (bind o (λ end. some l))
kept-Letters none l h = tt
kept-Letters (some t) l h = h

letter_if-Letters : (test : Text → Bool) (s : Text) → Letters (letter_if test s)
letter_if-Letters test s =
    Reads-Letters (letter_i s) (λ p. if test p.1 then some p.0 else none) (letter_i-Reads s)
      (λ p h. if-Letters (test p.1) p.0 h)

-- A letter under a test, behind a part of the pattern.
behind-Letters :
    (o : Option Text) (test : Text → Bool) (skip : Text → Text)
    → Letters (bind o (λ rest. letter_if test (skip rest)))
behind-Letters none test skip = tt
behind-Letters (some rest) test skip = letter_if-Letters test (skip rest)

answer_at-Letters : (u : Unicode) (prev : Option ℕ) (s : Text) → Letters (answer_at u prev s)
unfolding answer_at
answer_at-Letters u prev s =
    behind-Letters (literal (codes "ANSWER") s) (ends_word u)
      (λ rest. opening (optional is_or_colon (lstrip rest)))

-- The letter of an option that is read behind a part of the pattern.
option-Letters :
    (o : Option Text) (f : ℕ × Text → Option ℕ)
    → Keeps f
    → Letters (bind (bind o (λ inner. letter_i (opening inner))) f)
option-Letters none f k = tt
option-Letters (some inner) f k =
    Reads-Letters (letter_i (opening inner)) f (letter_i-Reads (opening inner)) k

boxed_at-Letters : (prev : Option ℕ) (s : Text) → Letters (boxed_at prev s)
unfolding boxed_at
boxed_at-Letters prev s =
    option-Letters (bind (literal (codes "\\BOXED") s) (λ rest. sign b'{' (lstrip rest))) closed
      (λ p h. kept-Letters (sign b'}' (lstrip (optional (sign b')') (lstrip p.1)))) p.0 h)

unless-Letters : (b : Bool) (o : Option ℕ) → Letters o → Letters (if b then none else o)
unless-Letters true o h = tt
unless-Letters false o h = h

final_at-Letters : (u : Unicode) (prev : Option ℕ) (s : Text) → Letters (final_at u prev s)
unfolding final_at
final_at-Letters u prev s =
    let read = bind (bind (literal (codes "FINAL") s) spaces) (literal (codes "ANSWER")) in
    let test = not_before is_letter_i in
    let skip : Text → Text = λ rest. opening (optional mark (lstrip rest)) in
    unless-Letters (follows (is_word u) prev) (bind read (λ rest. letter_if test (skip rest)))
      (behind-Letters read test skip)

option_at-Letters : (u : Unicode) (prev : Option ℕ) (s : Text) → Letters (option_at u prev s)
unfolding option_at
option_at-Letters u prev s =
    let read = literal (codes "OPTION") s in
    let test = not_before is_letter_i in
    unless-Letters (follows (is_word u) prev) (bind read (λ rest. letter_if test (opening rest)))
      (behind-Letters read test opening)

upper_letter_only-Reads : (s : Text) → Reads (upper_letter_only s)
upper_letter_only-Reads [] = tt
upper_letter_only-Reads (c ∷ s) = elim (Bool-cases (is_choice_upper c)) [
  | inl e ↦ rw e (ground arith, ground arith)
  | inr e ↦ rw e tt
]

line_at-Letters : (prev : Option ℕ) (s : Text) → Letters (line_at prev s)
unfolding line_at
line_at-Letters prev s =
    let read : Letters (bind (upper_letter_only (opening s)) marked) =
      Reads-Letters (upper_letter_only (opening s)) marked (upper_letter_only-Reads (opening s))
        (λ p h.
          kept-Letters (one (λ c. (c == b')') || ((c == b'.') || (c == b':'))) (lstrip p.1)) p.0
            h) in
    go (at_line_start prev) read
  where
    go :
        (b : Bool)
        → Letters (bind (upper_letter_only (opening s)) marked)
        → Letters (if b then bind (upper_letter_only (opening s)) marked else none)
    go true h = h
    go false h = tt

-- The first place that the pattern takes gives a letter where every place does.
search_first-Letters :
    (at : Option ℕ → Text → Option ℕ) (prev : Option ℕ) (s : Text)
    → ((p : Option ℕ) (t : Text) → Letters (at p t))
    → Letters (search_first at prev s)
unfolding search_first
search_first-Letters at prev [] h = h prev []
search_first-Letters at prev (c ∷ s) h =
    go (at prev (c ∷ s)) (search_first at (some c) s) (h prev (c ∷ s))
      (search_first-Letters at (some c) s h)
  where
    go :
        (o later : Option ℕ)
        → Letters o
        → Letters later
        → Letters (elim o [ none ↦ later | some a ↦ some a ])
    go none later k r = r
    go (some l) later k r = k

by_patterns-Letters : (u : Unicode) (text : Text) → Letters (by_patterns u text)
unfolding by_patterns
by_patterns-Letters u text =
    let fifth = search_first line_at none text in
    let fourth = search_first (option_at u) none text in
    let third = search_first (final_at u) none text in
    let second = search_first boxed_at none text in
    or_else-Letters (search_first (answer_at u) none text)
      (or_else second (or_else third (or_else fourth fifth)))
      (search_first-Letters (answer_at u) none text (answer_at-Letters u))
      (or_else-Letters second (or_else third (or_else fourth fifth))
        (search_first-Letters boxed_at none text boxed_at-Letters)
        (or_else-Letters third (or_else fourth fifth)
          (search_first-Letters (final_at u) none text (final_at-Letters u))
          (or_else-Letters fourth fifth
            (search_first-Letters (option_at u) none text (option_at-Letters u))
            (search_first-Letters line_at none text line_at-Letters))))

at_end-Letters : (l : ℕ) (s : Text) → IsLetter l → Letters (at_end l s)
at_end-Letters l [] h = h
at_end-Letters l (c ∷ s) h = tt

whole_line-Letters : (s : Text) → Letters (whole_line s)
unfolding whole_line
whole_line-Letters s =
    let inner = lstrip (optional (sign b'(') s) in
    Reads-Letters (letter_i inner) (λ p. at_end p.0 (ending p.1)) (letter_i-Reads inner)
      (λ p h. at_end-Letters p.0 (ending p.1) h)

extract-Letters : (u : Unicode) (text : Text) → Letters (extract_choice_letter u text)
unfolding extract_choice_letter
extract-Letters u text =
    or_else-Letters (by_patterns u text) (bind (last_line (split_lines text)) whole_line)
      (by_patterns-Letters u text)
      (bind-Letters (last_line (split_lines text)) whole_line (λ line e. whole_line-Letters line))

-- A choice that is extracted is one of the capital letters from A to D, whatever the text.
pub extract_choice_letter-IsLetter :
    (u : Unicode) (text : Text) {l : ℕ} → extract_choice_letter u text ≡ some l → IsLetter l
extract_choice_letter-IsLetter u text {l = l} h = let k = extract-Letters u text in rw h at k
