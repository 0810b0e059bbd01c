-- ===== src/Graders/Boxed/Tests.antt =====
-- Runs of the search for a boxed answer, from tests/test_reward.py and its corner cases.
use minirouter.Prelude.{none, some, Text, codes, ◌≡◌, ◌≢◌, refl, strip, List, [], ◌∷◌, map, arith}
use minirouter.Graders.Boxed.{extract_boxed, boxed_contents, last}
use minirouter.Graders.Boxed.Balanced.{empty, plain, group, more}
use minirouter.Graders.Boxed.Bounds.{boxed_contents-total}
use minirouter.Graders.Boxed.Laws.{
  Box, AreBoxes, no_box, box, written, answer, extract_boxed-written,
}

nested : extract_boxed (codes "so \\boxed{\\frac{1}{2}}.") ≡ some (codes "\\frac{1}{2}")
unfolding extract_boxed strip
nested = refl

last_one : extract_boxed (codes "\\boxed{1} and \\boxed { 2 }") ≡ some (codes "2")
unfolding extract_boxed strip
last_one = refl

no_brace : extract_boxed (codes "\\boxed 7 \\boxed{8}") ≡ some (codes "8")
unfolding extract_boxed strip
no_brace = refl

-- An unbalanced box ends the search.
open_box : extract_boxed (codes "\\boxed{1} \\boxed{2 \\boxed{3}") ≡ some (codes "1")
unfolding extract_boxed strip
open_box = refl

absent : extract_boxed (codes "boxed{1}") ≡ none
unfolding extract_boxed strip
absent = refl

abbrev two_boxes : List Box
two_boxes =
    record { front = codes "a "; inside = codes "1" }
    ∷ record { front = codes " b "; inside = codes " x{y} " }
    ∷ []

abbrev shown_tail : Text
shown_tail = codes "."

front_box-IsBox : AreBoxes two_boxes
front_box-IsBox =
    box record { front = more refl (more refl empty); inside = plain refl empty }
      (box
        record {
          front = more refl (more refl (more refl empty));
          inside = plain refl (plain refl (group (plain refl empty) (plain refl empty)));
        }
        no_box)

extract_boxed-written_example :
    extract_boxed (written two_boxes shown_tail) ≡ last (map answer two_boxes)
extract_boxed-written_example = extract_boxed-written front_box-IsBox (more refl empty)

boxed_contents-total_example : boxed_contents 11 (codes "\\boxed{12}") ≢ none
boxed_contents-total_example = boxed_contents-total 11 (codes "\\boxed{12}") (omega arith)
