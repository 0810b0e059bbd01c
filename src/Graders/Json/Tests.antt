-- ===== src/Graders/Json/Tests.antt =====
-- Runs of the extraction of a JSON payload, with a parser that takes one object.
use minirouter.Prelude.{none, some, codes, ◌≡◌, refl, strip, text_eq, if◌then◌else◌}
use minirouter.Prelude.Unicode.{plain, lower}
use minirouter.Py.{nothing, dict, end}
use minirouter.Graders.Json.{Loads, extract_json_payload}

abbrev one_object : Loads
one_object s = if text_eq s (codes "{}") then some (dict end) else none

fenced : extract_json_payload plain one_object (codes "```JSON\n{}\n```") ≡ dict end
unfolding extract_json_payload strip lower text_eq
fenced = refl

inside_prose : extract_json_payload plain one_object (codes "Call: {} now") ≡ dict end
unfolding extract_json_payload strip lower text_eq
inside_prose = refl

absent : extract_json_payload plain one_object (codes "{x}") ≡ nothing
unfolding extract_json_payload strip lower text_eq
absent = refl
