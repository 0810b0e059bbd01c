-- ===== src/Fugu/Extract.antt =====
-- src/trinity/fugu/workflow.py, `_extract_bracketed_all` and `_list_candidates`: the list literals
-- that a proposal assigns to a name. `ast.literal_eval` is a parameter: `none` stands for the
-- exceptions that the caller catches.
mod Tests
use minirouter.Prelude.{
  ℕ, zero, suc, ◌+◌, ◌-◌, Bool, true, false, not, ◌&&◌, ◌||◌, Option, none, some, List, [], ◌∷◌,
  ◌++◌, map, Text, codes, lstrip, strip, length, leb, ◌==◌, if◌then◌else◌,
}
use minirouter.Prelude.Unicode.{Unicode, is_word}
use minirouter.Py.{Value, Items, list, nil, cons}

-- the text behind a prefix
unfoldable pub behind : Text → Text → Option Text
behind [] s = some s
behind (p ∷ ps) [] = none
behind (p ∷ ps) (c ∷ s) = if p == c then behind ps s else none

-- `[:=]\s*`
abbrev behind_mark : Text → Option Text
behind_mark [] = none
behind_mark (c ∷ s) = if (c == b':') || (c == b'=') then some (lstrip s) else none

abbrev then_mark : Option Text → Option Text
then_mark none = none
then_mark (some s) = behind_mark (lstrip s)

-- `(?<![\w])`
abbrev after_word : Unicode → Option ℕ → Bool
after_word u none = false
after_word u (some c) = is_word u c

-- The pattern `(?<![\w])name\s*[:=]\s*` at a place, with the character in front of it; the result
-- is the text behind the match.
unfoldable pub assignment_at : Unicode → Text → Option ℕ → Text → Option Text
unfolding behind
assignment_at u name prev s = if after_word u prev then none else then_mark (behind name s)

-- `pat.finditer(text)`: where each match starts, and the text behind it. The next search begins
-- where a match ended.
unfoldable pub find_assignments : Unicode → Text → ℕ → Option ℕ → ℕ → Text → List (ℕ × Text)
unfolding assignment_at
find_assignments u name pos prev skip [] = []
find_assignments u name pos prev (suc skip) (c ∷ s) =
    find_assignments u name (pos + 1) (some c) skip s
find_assignments u name pos prev zero (c ∷ s) = elim (assignment_at u name prev (c ∷ s)) [
  | none ↦ find_assignments u name (pos + 1) (some c) 0 s
  | some rest ↦ (pos, rest) ∷ find_assignments u name (pos + 1) (some c) (length s - length rest) s
]

-- The text up to the first `[`, and the text from there: `text.find("[", m.end())`.
unfoldable pub split_bracket : Text → Option (Text × Text)
split_bracket [] = none
split_bracket (c ∷ s) =
    if c == b'['
    then some ([], c ∷ s)
    else elim (split_bracket s) [ none ↦ none | some (a, b) ↦ some (c ∷ a, b) ]

-- the variables of the bracket scan
pub record Scan : Type 0 where
  pub depth : ℕ
  pub in_str : Option ℕ
  pub esc : Bool

abbrev pub start_scan : Scan
start_scan = record { depth = 0; in_str = none; esc = false }

-- One round on a character; `depth` is at least 1 where a `]` is met, as the span begins with `[`.
abbrev scan_in : Option ℕ → Scan → ℕ → Scan
scan_in (some q) st c =
    if st.esc
    then record st { esc = false }
    else if c == 92
    then record st { esc = true }
    else if c == q
    then record st { in_str = none }
    else st
scan_in none st c =
    if (c == 39) || (c == 34)
    then record st { in_str = some c }
    else if c == b'['
    then record st { depth = st.depth + 1 }
    else if c == b']'
    then record st { depth = st.depth - 1 }
    else st

unfoldable pub scan_step : Scan → ℕ → Scan
scan_step st c = scan_in st.in_str st c

abbrev outside : Option ℕ → Bool
outside none = true
outside (some q) = false

-- `depth == 0` behind a `]` outside of a string
unfoldable pub closes : Scan → ℕ → Bool
closes st c = outside st.in_str && ((c == b']') && leb st.depth 1)

abbrev prepend : ℕ → Option Text → Option Text
prepend c none = none
prepend c (some s) = some (c ∷ s)

-- The span up to the bracket that closes the first one.
unfoldable pub scan_span : Scan → Text → Option Text
unfolding scan_step closes
scan_span st [] = none
scan_span st (c ∷ s) =
    let rest = scan_span (scan_step st c) s in if closes st c then some (c ∷ []) else prepend c rest

abbrev blank : Text → Bool
blank s = elim (strip s) [ [] ↦ true | _ ∷ _ ↦ false ]

-- Only a bracket that stands directly behind the mark counts.
abbrev span_behind : Option (Text × Text) → Option Text
span_behind none = none
span_behind (some (gap, s)) = if blank gap then scan_span start_scan s else none

abbrev keep_spans : List (ℕ × Text) → List (ℕ × Text)
keep_spans [] = []
keep_spans ((pos, rest) ∷ ms) =
    let spans = keep_spans ms in
    elim (span_behind (split_bracket rest)) [ none ↦ spans | some span ↦ (pos, span) ∷ spans ]

unfoldable pub extract_bracketed_all : Unicode → Text → Text → List (ℕ × Text)
unfolding find_assignments split_bracket scan_span
extract_bracketed_all u text name = keep_spans (find_assignments u name 0 none 0 text)

abbrev pub to_list : Items → List Value
to_list nil = []
to_list (cons v vs) = v ∷ to_list vs

-- isinstance(val, list)
abbrev as_list : Option Value → Option (List Value)
as_list (some (list vs)) = some (to_list vs)
as_list _ = none

-- `sorted(out, key=lambda x: x[0])`, which is stable
unfoldable pub insert_by_pos : ℕ × List Value → List (ℕ × List Value) → List (ℕ × List Value)
insert_by_pos x [] = x ∷ []
insert_by_pos x (y ∷ ys) = if leb x.0 y.0 then x ∷ y ∷ ys else y ∷ insert_by_pos x ys

unfoldable pub sort_by_pos : List (ℕ × List Value) → List (ℕ × List Value)
unfolding insert_by_pos
sort_by_pos [] = []
sort_by_pos (x ∷ xs) = insert_by_pos x (sort_by_pos xs)

module _ (u : Unicode) (literal_eval : Text → Option Value) where
  evaluate_spans : List (ℕ × Text) → List (ℕ × List Value)
  evaluate_spans [] = []
  evaluate_spans ((pos, span) ∷ spans) =
      let rest = evaluate_spans spans in
      elim (as_list (literal_eval span)) [ none ↦ rest | some vs ↦ (pos, vs) ∷ rest ]

  -- the loops over `names`, before the sort
  unfoldable pub all_candidates : Text → List Text → List (ℕ × List Value)
  unfolding evaluate_spans extract_bracketed_all
  all_candidates text [] = []
  all_candidates text (name ∷ names) =
      evaluate_spans (extract_bracketed_all u text name) ++ all_candidates text names

  unfoldable pub list_candidates : Text → List Text → List (ℕ × List Value)
  unfolding all_candidates sort_by_pos
  list_candidates text names = sort_by_pos (all_candidates text names)
