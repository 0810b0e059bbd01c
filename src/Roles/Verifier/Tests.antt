-- ===== src/Roles/Verifier/Tests.antt =====
-- Runs of the verdict parser.
use minirouter.Prelude.{◌≡◌, refl, none, some, ◌++◌, ◌⊎◌, codes, lstrip, strip}
use minirouter.Prelude.Unicode.{plain, is_word}
use minirouter.Roles.Verifier.{
  find_verdicts, verdict_at, parse_verdict, extract_diagnosis, accept_text, revise_text,
}
use minirouter.Roles.Verifier.Closing.{parse_verdict-closing}
use minirouter.Roles.Verifier.Shape.{parse_verdict-cases, dotted_text}

last_verdict :
    parse_verdict plain (codes "VERDICT: REVISE\nfixed. verdict:\taccept. done") ≡ some accept_text
unfolding parse_verdict find_verdicts verdict_at lstrip is_word
last_verdict = refl

longer_word : parse_verdict plain (codes "VERDICT: ACCEPTABLE") ≡ none
unfolding parse_verdict find_verdicts verdict_at lstrip is_word
longer_word = refl

diagnosis : extract_diagnosis plain (codes " off by one \nVERDICT: REVISE") ≡ codes "off by one"
unfolding extract_diagnosis find_verdicts verdict_at strip is_word
diagnosis = refl

parse_verdict-closing_example :
    (parse_verdict plain (codes "VERDICT: REVISE" ++ codes "\nVERDICT: ACCEPT") ≡ some accept_text)
    × (parse_verdict plain (codes "VERDICT: REVISE" ++ codes "\nVERDICT: REVISE")
        ≡ some revise_text)
    × (extract_diagnosis plain (codes "VERDICT: REVISE" ++ codes "\nVERDICT: ACCEPT")
        ≡ strip (codes "VERDICT: REVISE"))
    × (extract_diagnosis plain (codes "VERDICT: REVISE" ++ codes "\nVERDICT: REVISE")
        ≡ strip (codes "VERDICT: REVISE"))
parse_verdict-closing_example = parse_verdict-closing plain (codes "VERDICT: REVISE")

dotted : parse_verdict plain (codes "verdict: revİse") ≡ some dotted_text
unfolding parse_verdict find_verdicts verdict_at lstrip is_word
dotted = refl

parse_verdict-cases_example :
    (dotted_text ≡ accept_text) ⊎ (dotted_text ≡ revise_text) ⊎ (dotted_text ≡ dotted_text)
parse_verdict-cases_example = parse_verdict-cases plain (codes "verdict: revİse") dotted
