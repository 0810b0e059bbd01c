-- ===== src/Graders/Bfcl/Tests.antt =====
-- Runs of the comparison of calls, with a parser that knows two answers.
use minirouter.Prelude.{
  ◌≡◌, refl, Bool, true, false, none, some, Text, [], ◌==◌, codes, text_eq, is_space, strip,
  if◌then◌else◌,
}
use minirouter.Prelude.Unicode.{plain, lower, decimal_value, int_from}
use minirouter.Py.{pos, Value, Items, int, str, list, dict, nil, cons, end, field}
use minirouter.Graders.Number.{span}
use minirouter.Graders.Json.{Loads, extract_json_payload}
use minirouter.Graders.Bfcl.{Builtins, as_items, gold_raw, check_bfcl}
use minirouter.Graders.Bfcl.Paired.{IsAccepted, check_bfcl-IsAccepted}

abbrev text_of : Value → Text
text_of (str s) = s
text_of v = []

abbrev same_number : Value → Value → Bool
same_number (int (pos m)) (int (pos n)) = m == n
same_number v w = false

abbrev builtins : Builtins
builtins = record {
  str_of = text_of;
  equal = same_number;
  float_of = λ s. str s;
  dumps = λ c. c.name;
}

-- [{"g": {"y": 2}}, {"name": "f", "arguments": {"x": "1"}}]
abbrev answer : Value
answer = list (
    cons (dict (field (str (codes "g")) (dict (field (str (codes "y")) (int (pos 2)) end)) end)) (
      cons
        (dict (
          field (str (codes "name")) (str (codes "f")) (
            field (str (codes "arguments")) (dict (field (str (codes "x")) (str (codes "1")) end))
              end)))
        nil))

abbrev parser : Loads
parser s = if text_eq s (codes "[{}]") then some answer else none

-- [{"f": {"x": [1], "z": ["", 3]}}, {"g": {"y": [2]}}]
abbrev gold : Value
gold = list (
    cons
      (dict (
        field (str (codes "f"))
          (dict (
            field (str (codes "x")) (list (cons (int (pos 1)) nil))
              (field (str (codes "z")) (list (cons (str []) (cons (int (pos 3)) nil))) end)))
          end))
      (cons
        (dict (
          field (str (codes "g"))
            (dict (field (str (codes "y")) (list (cons (int (pos 2)) nil)) end)) end))
        nil))

accepted : check_bfcl plain builtins parser (codes "[{}]") gold ≡ true
unfolding check_bfcl lower text_eq strip is_space decimal_value int_from span
accepted = refl

one_call_short :
    check_bfcl plain builtins parser
      (codes "[{}]")
      (list (cons (dict (field (str (codes "g")) (dict end) end)) nil))
    ≡ false
unfolding check_bfcl lower text_eq strip is_space decimal_value int_from span
one_call_short = refl

check_bfcl-IsAccepted_example :
    (xs : Items) × (gold_raw gold ≡ list xs)
    × IsAccepted plain builtins (as_items (extract_json_payload plain parser (codes "[{}]"))) xs
check_bfcl-IsAccepted_example =
    check_bfcl-IsAccepted plain builtins parser (codes "[{}]") gold accepted
