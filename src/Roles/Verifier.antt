-- ===== src/Roles/Verifier.antt =====
-- src/trinity/roles/verifier.py: the verdict line of a Verifier's output.
mod Tests
pub mod Cut
pub mod Closing
pub mod Shape
use minirouter.Prelude.{
  ℕ, zero, suc, ◌+◌, ◌-◌, Bool, true, false, not, ◌&&◌, ◌||◌, Option, none, some, List, [], ◌∷◌,
  map, Text, codes, strip, lstrip, length, take, ◌==◌, if◌then◌else◌,
}
use minirouter.Prelude.Unicode.{Unicode, is_word, is_upper_ascii, is_lower_ascii}

-- A letter `p` of the pattern against a character `c` under `re.IGNORECASE`: besides the two ASCII
-- cases, I stands for the dotted capital and the dotless small i, and S for the long s.
abbrev same_letter : ℕ → ℕ → Bool
same_letter p c =
    if is_upper_ascii p
    then (c == p)
      || ((c == p + 32)
          || (((p == b'I') && ((c == 0x130) || (c == 0x131))) || ((p == b'S') && (c == 0x17f))))
    else (c == p)

-- The rest of the text behind a literal of the pattern.
unfoldable pub literal : Text → Text → Option Text
literal [] s = some s
literal (p ∷ ps) [] = none
literal (p ∷ ps) (c ∷ s) = if same_letter p c then literal ps s else none

-- `\b` behind a letter
unfoldable pub ends_word : Unicode → Text → Bool
ends_word u [] = true
ends_word u (c ∷ s) = not (is_word u c)

abbrev pub verdict_key : Text
verdict_key = codes "VERDICT:"

abbrev pub accept_text : Text
accept_text = codes "ACCEPT"

abbrev pub revise_text : Text
revise_text = codes "REVISE"

-- (ACCEPT|REVISE): both alternatives have six letters
abbrev or_else : Option Text → Option Text → Option Text
or_else none b = b
or_else (some a) b = some a

unfoldable pub decision : Text → Option Text
unfolding literal
decision s = or_else (literal accept_text s) (literal revise_text s)

abbrev with_group : Unicode → Text → Text → Option Text → Option (ℕ × Text)
with_group u s body none = none
with_group u s body (some after) =
    if ends_word u after then some (length s - length after, take 6 body) else none

abbrev behind_key : Unicode → Text → Option Text → Option (ℕ × Text)
behind_key u s none = none
behind_key u s (some rest) = with_group u s (lstrip rest) (decision (lstrip rest))

-- `VERDICT_RE` at the front of a text: the length of the match and its first group.
unfoldable pub verdict_at : Unicode → Text → Option (ℕ × Text)
unfolding literal ends_word decision
verdict_at u s = behind_key u s (literal verdict_key s)

-- `VERDICT_RE.finditer`, from position `pos`: starts and groups. The next search begins where a
-- match ended, so `skip` characters are passed over first.
unfoldable pub find_verdicts : Unicode → ℕ → ℕ → Text → List (ℕ × Text)
find_verdicts u pos skip [] = []
find_verdicts u pos (suc skip) (c ∷ s) = find_verdicts u (pos + 1) skip s
find_verdicts u pos zero (c ∷ s) = elim (verdict_at u (c ∷ s)) [
  | none ↦ find_verdicts u (pos + 1) 0 s
  | some (n, g) ↦ (pos, g) ∷ find_verdicts u (pos + 1) (n - 1) s
]

-- c.upper(), at the characters that a group can hold
unfoldable pub upper_letter : ℕ → ℕ
upper_letter c =
    if is_lower_ascii c then c - 32 else if c == 0x131 then b'I' else if c == 0x17f then b'S' else c

-- matches[-1]
unfoldable pub last? {ℓ} : {A : Type ℓ} → List A → Option A
last? [] = none
last? (x ∷ []) = some x
last? (x ∷ y ∷ ys) = last? (y ∷ ys)

abbrev group_upper : Option (ℕ × Text) → Option Text
group_upper none = none
group_upper (some (start, g)) = some (map upper_letter g)

unfoldable pub parse_verdict : Unicode → Text → Option Text
unfolding upper_letter last?
parse_verdict u text = group_upper (last? (find_verdicts u 0 0 text))

abbrev before_match : Text → Option (ℕ × Text) → Text
before_match text none = strip text
before_match text (some (start, g)) = strip (take start text)

unfoldable pub extract_diagnosis : Unicode → Text → Text
unfolding last?
extract_diagnosis u text = before_match text (last? (find_verdicts u 0 0 text))
