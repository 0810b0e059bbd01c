-- ===== src/Graders/Number/Tests.antt =====
-- Runs of the search for a number, from tests/test_reward.py and its corner cases.
use minirouter.Prelude.{none, some, codes, ◌≡◌, refl, is_space}
use minirouter.Prelude.Unicode.{plain, decimal_value}
use minirouter.Graders.Number.{extract_last_number}

last_of_two : extract_last_number plain (codes "3 apples and 42 pears.") ≡ some (codes "42")
unfolding extract_last_number decimal_value is_space
last_of_two = refl

fraction_whole : extract_last_number plain (codes "so -1 / 2") ≡ some (codes "-1/2")
unfolding extract_last_number decimal_value is_space
fraction_whole = refl

grouped_digits : extract_last_number plain (codes "about -1,234.56!") ≡ some (codes "-1234.56")
unfolding extract_last_number decimal_value is_space
grouped_digits = refl

ungrouped : extract_last_number plain (codes "1234,567") ≡ some (codes "567")
unfolding extract_last_number decimal_value is_space
ungrouped = refl

leading_point : extract_last_number plain (codes "p = .5") ≡ some (codes ".5")
unfolding extract_last_number decimal_value is_space
leading_point = refl

absent : extract_last_number plain (codes "none") ≡ none
unfolding extract_last_number decimal_value is_space
absent = refl
