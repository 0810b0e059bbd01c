-- ===== src/Graders/Json.antt =====
-- src/trinity/orchestration/reward.py, `_strip_code_fences` and `_extract_json_payload`. The
-- parser `json.loads` is a parameter: a value, or none where it raises.
mod Tests
use minirouter.Prelude.{
  ℕ, Bool, true, false, ◌&&◌, Option, none, some, List, [], ◌∷◌, map, reverse, Text, codes, strip,
  ◌==◌, if◌then◌else◌,
}
use minirouter.Py.{Value, nothing}
use minirouter.Prelude.Unicode.{Unicode, lower}
use minirouter.Graders.Boxed.{behind_prefix}

abbrev pub Loads : Type 0
Loads = Text → Option Value

abbrev pub fence : Text
fence = codes "```"

-- `s[:-3]` where `s.endswith("```")`, and `s` elsewhere
abbrev pub without_fence : Text → Text
without_fence s = elim (behind_prefix fence (reverse s)) [ some rest ↦ reverse rest | none ↦ s ]

-- `s.lower().startswith(word)` drops the characters of the word: lower() keeps each of them one.
abbrev pub starts_lower : Unicode → Text → Text → Bool
starts_lower u word s = elim (behind_prefix word (lower u s)) [ some rest ↦ true | none ↦ false ]

abbrev pub drop4 : Text → Text
drop4 (a ∷ (b ∷ (c ∷ (d ∷ s)))) = s
drop4 _ = []

abbrev pub without_language : Unicode → Text → Text
without_language u s = if starts_lower u (codes "json") s then drop4 s else s

unfoldable pub strip_code_fences : Unicode → Text → Text
unfolding behind_prefix
strip_code_fences u text = elim (behind_prefix fence (strip text)) [
  | none ↦ strip text
  | some s ↦ strip (without_fence (strip (without_language u s)))
]

-- `s[s.find(c):] if c in s else ""`
unfoldable pub from_first : ℕ → Text → Text
from_first p [] = []
from_first p (c ∷ s) = if c == p then c ∷ s else from_first p s

-- `s[: s.rfind(c) + 1]`, where the character is in the text and not at its first place
unfoldable pub through_last : ℕ → Text → Option Text
unfolding from_first
through_last p s = elim (from_first p (reverse s)) [
  | [] ↦ none
  | c ∷ [] ↦ none
  | c ∷ (d ∷ r) ↦ some (reverse (c ∷ (d ∷ r)))
]

abbrev pub starts_with : ℕ → Text → Bool
starts_with p [] = false
starts_with p (c ∷ s) = c == p

-- What a bracket and the last one that closes it enclose, where the parser takes that.
abbrev pub loads_enclosed : Loads → ℕ → ℕ → Text → Option Value
loads_enclosed loads opening closing s =
    if starts_with opening s
    then elim (through_last closing s) [ none ↦ none | some part ↦ loads part ]
    else none

abbrev pub first_of : Option Value → Option Value → Option Value
first_of (some v) later = some v
first_of none later = later

-- the body of the loop over the candidates
unfoldable pub loads_candidate : Loads → Text → Option Value
unfolding through_last
loads_candidate loads [] = none
loads_candidate loads (c ∷ rest) =
    let s = strip (without_fence (strip (c ∷ rest))) in
    first_of (loads_enclosed loads b'{' b'}' s) (loads_enclosed loads b'[' b']' s)

-- None, which the source answers also for the JSON text `null`, is `nothing`.
unfoldable pub extract_json_payload : Unicode → Loads → Text → Value
unfolding loads_candidate strip_code_fences from_first
extract_json_payload u loads [] = nothing
extract_json_payload u loads (c ∷ rest) =
    let s = strip_code_fences u (c ∷ rest) in
    elim (first_of (loads_candidate loads s) (
      first_of (loads_candidate loads (from_first b'{' s))
        (first_of (loads_candidate loads (from_first b'[' s)) (loads s)))) [
          | none ↦ nothing
          | some v ↦ v
        ]
