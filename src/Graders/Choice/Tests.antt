-- ===== src/Graders/Choice/Tests.antt =====
-- Runs of the extraction.
use minirouter.Prelude.{◌≡◌, ◌≤◌, refl, none, some, Text, codes, lstrip, strip}
use minirouter.Prelude.Unicode.{plain, is_word}
use minirouter.Roles.Verifier.{literal, ends_word}
use minirouter.Graders.Choice.{extract_choice_letter}
use minirouter.Graders.Choice.Letters.{extract_choice_letter-IsLetter}

in_a_sentence : extract_choice_letter plain (codes "So the answer is (b).") ≡ some b'B'
unfolding extract_choice_letter literal ends_word lstrip strip is_word
in_a_sentence = refl

in_a_word : extract_choice_letter plain (codes "the answer Beats me") ≡ none
unfolding extract_choice_letter literal ends_word lstrip strip is_word
in_a_word = refl

alone : extract_choice_letter plain (codes "A nice approach\n(C)\n") ≡ some b'C'
unfolding extract_choice_letter literal ends_word lstrip strip is_word
alone = refl

abbrev shown : Text
shown = codes "Answer: (c)."

shown-choice : extract_choice_letter plain shown ≡ some b'C'
unfolding extract_choice_letter literal ends_word lstrip strip is_word
shown-choice = refl

extract_choice_letter-IsLetter_example : (b'A' ≤ b'C') × (b'C' ≤ b'D')
extract_choice_letter-IsLetter_example = extract_choice_letter-IsLetter plain shown shown-choice
