-- ===== src/Graders/Bfcl.antt =====
-- src/trinity/orchestration/reward.py: the comparison of function calls, `_check_bfcl`. Python's
-- `str`, `==`, `float` and the dump of a call are parameters. The arguments that a parser of JSON
-- returns have texts for keys.
pub mod Paired
mod Tests
use minirouter.Prelude.{
  ℕ, zero, suc, ◌+◌, Bool, true, false, not, ◌&&◌, ◌||◌, Option, none, some, List, [], ◌∷◌, Text,
  codes, text_eq, strip, length, ltb, ◌==◌, if◌then◌else◌,
}
use minirouter.Prelude.Unicode.{Unicode, lower, int_from}
use minirouter.Py.{
  ℤ, pos, negsuc, Value, nothing, truth, int, str, list, tuple, dict, other, Items, nil, cons,
  Fields, end, field,
}
use minirouter.Graders.Scan.{is_decimal}
use minirouter.Graders.Number.{Part, ◌then◌, char, maybe, either, span, span1}
use minirouter.Graders.Json.{Loads, extract_json_payload}
use minirouter.Graders.Sandbox.{dict_get, get_or_else}

pub record Call : Type 0 where
  pub name : Text
  pub arguments : Fields

pub record Builtins : Type 0 where
  pub str_of : Value → Text
  pub equal : Value → Value → Bool
  -- float(s) of digits with a point
  pub float_of : Text → Value
  -- json.dumps of a call with sorted keys
  pub dumps : Call → Text

-- `re.fullmatch`
abbrev matches : Part → Text → Bool
matches p s = elim (p s) [ none ↦ false | some (m, rest) ↦ elim rest [ [] ↦ true | c ∷ t ↦ false ] ]

abbrev integer : Unicode → Part
integer u = maybe (char b'-') then span1 (is_decimal u)

-- `-?(?:\d+\.\d+|\d+\.)`
abbrev pointed : Unicode → Part
pointed u =
    maybe (char b'-')
    then (span1 (is_decimal u) then (char b'.' then (λ s. some (span (is_decimal u) s))))

abbrev negative : ℕ → ℤ
negative zero = pos zero
negative (suc n) = negsuc n

-- int(s) of a text that the pattern takes
unfoldable pub int_of_text : Unicode → Text → Value
int_of_text u [] = str []
int_of_text u (c ∷ s) =
    if c == b'-'
    then elim (int_from u 0 s) [ none ↦ str (c ∷ s) | some n ↦ int (negative n) ]
    else elim (int_from u 0 (c ∷ s)) [ none ↦ str (c ∷ s) | some n ↦ int (pos n) ]

unfoldable pub coerce_text : Unicode → Builtins → Text → Value
unfolding int_of_text
coerce_text u b s =
    let low = lower u s in
    if text_eq low (codes "true")
    then truth true
    else if text_eq low (codes "false")
    then truth false
    else if text_eq low (codes "null") || text_eq low (codes "none")
    then nothing
    else if matches (integer u) s
    then int_of_text u s
    else if matches (pointed u) s
    then b.float_of s
    else str s

-- `_normalize_bfcl_value`, and `_coerce_bfcl_scalar` on what is neither a list nor a dictionary
unfoldable mutual
  unfolding coerce_text

  pub normalize_bfcl_value : Unicode → Builtins → Value → Value
  normalize_bfcl_value u b (list xs) = list (normalize_bfcl_items u b xs)
  normalize_bfcl_value u b (dict fs) = dict (normalize_bfcl_fields u b fs)
  normalize_bfcl_value u b (str s) = coerce_text u b (strip s)
  normalize_bfcl_value u b v = v

  pub normalize_bfcl_items : Unicode → Builtins → Items → Items
  normalize_bfcl_items u b nil = nil
  normalize_bfcl_items u b (cons v vs) =
      cons (normalize_bfcl_value u b v) (normalize_bfcl_items u b vs)

  pub normalize_bfcl_fields : Unicode → Builtins → Fields → Fields
  normalize_bfcl_fields u b end = end
  normalize_bfcl_fields u b (field k v fs) =
      field (str (b.str_of k)) (normalize_bfcl_value u b v) (normalize_bfcl_fields u b fs)

abbrev pub call_of : Builtins → Value → Value → Option Call
call_of b name (dict arguments) =
    some record { name = strip (b.str_of name); arguments = arguments }
call_of b name _ = none

abbrev pub all_dicts : Fields → Bool
all_dicts end = true
all_dicts (field k (dict fs) rest) = all_dicts rest
all_dicts (field k _ rest) = false

abbrev has {ℓ} : {A : Type ℓ} → Option A → Bool
has none = false
has (some a) = true

-- The forms without a name: one field, or fields whose values are dictionaries; the first counts.
abbrev pub first_call : Builtins → Fields → Option Call
first_call b end = none
first_call b (field k v end) = call_of b k v
first_call b (field k v (field k' v' rest)) =
    if all_dicts (field k v (field k' v' rest)) then call_of b k v else none

-- `_bfcl_call_from_model`
unfoldable pub bfcl_call_from_model : Builtins → Value → Option Call
unfolding dict_get
bfcl_call_from_model b (dict fs) =
    if has (dict_get (codes "name") fs)
      && (has (dict_get (codes "arguments") fs) || has (dict_get (codes "args") fs))
    then call_of b (get_or_else (dict_get (codes "name") fs) (str [])) (
        get_or_else (dict_get (codes "arguments") fs)
          (get_or_else (dict_get (codes "args") fs) (dict end)))
    else first_call b fs
bfcl_call_from_model b v = none

abbrev pub as_items : Value → Items
as_items (list xs) = xs
as_items v = cons v nil

-- the arguments of a gold call, each with the list of its allowed values
unfoldable pub allowed_fields : Unicode → Builtins → Fields → Fields
unfolding normalize_bfcl_items
allowed_fields u b end = end
allowed_fields u b (field k v rest) =
    field (str (b.str_of k)) (list (normalize_bfcl_items u b (as_items v)))
      (allowed_fields u b rest)

-- `_bfcl_call_from_gold`
unfoldable pub bfcl_call_from_gold : Unicode → Builtins → Value → Option Call
unfolding allowed_fields
bfcl_call_from_gold u b (dict (field k (dict arguments) end)) =
    some record { name = strip (b.str_of k); arguments = allowed_fields u b arguments }
bfcl_call_from_gold u b v = none

abbrev is_missing : Value → Bool
is_missing nothing = true
is_missing (str []) = true
is_missing v = false

-- `_bfcl_missing_allowed`: the items are taken before they are normalized, which they would be
-- once more
unfoldable mutual
  unfolding normalize_bfcl_value

  pub bfcl_missing_allowed : Unicode → Builtins → Value → Bool
  bfcl_missing_allowed u b (list xs) = any_missing_allowed u b xs
  bfcl_missing_allowed u b v = is_missing (normalize_bfcl_value u b v)

  pub any_missing_allowed : Unicode → Builtins → Items → Bool
  any_missing_allowed u b nil = false
  any_missing_allowed u b (cons v vs) = bfcl_missing_allowed u b v || any_missing_allowed u b vs

-- the loop over the options
unfoldable pub some_option : Unicode → Builtins → Value → Items → Bool
unfolding normalize_bfcl_value
some_option u b candidate nil = false
some_option u b candidate (cons v vs) =
    let option = normalize_bfcl_value u b v in
    (b.equal candidate option || text_eq (strip (b.str_of candidate)) (strip (b.str_of option)))
    || some_option u b candidate vs

-- `_bfcl_value_matches`
unfoldable pub bfcl_value_matches : Unicode → Builtins → Value → Value → Bool
unfolding some_option
bfcl_value_matches u b candidate allowed =
    some_option u b (normalize_bfcl_value u b candidate) (as_items allowed)

-- `set(cand_args).issubset(ref_args)`
unfoldable pub keys_subset : Fields → Fields → Bool
unfolding dict_get
keys_subset end ref = true
keys_subset (field (str k) v rest) ref = has (dict_get k ref) && keys_subset rest ref
keys_subset (field _ v rest) ref = false

abbrev argument_matches : Unicode → Builtins → Value → Option Value → Bool
argument_matches u b allowed none = bfcl_missing_allowed u b allowed
argument_matches u b allowed (some v) = bfcl_value_matches u b v allowed

-- the loop over the arguments of the gold call
unfoldable pub arguments_match : Unicode → Builtins → Fields → Fields → Bool
unfolding dict_get bfcl_missing_allowed bfcl_value_matches
arguments_match u b candidate end = true
arguments_match u b candidate (field (str k) allowed rest) =
    argument_matches u b allowed (dict_get k candidate) && arguments_match u b candidate rest
arguments_match u b candidate (field _ allowed rest) = false

-- `_bfcl_call_matches`
unfoldable pub bfcl_call_matches : Unicode → Builtins → Call → Call → Bool
unfolding keys_subset arguments_match
bfcl_call_matches u b candidate reference =
    text_eq candidate.name reference.name
    && (keys_subset candidate.arguments reference.arguments
        && arguments_match u b candidate.arguments reference.arguments)

-- the order of texts by code points
unfoldable pub text_leb : Text → Text → Bool
text_leb [] t = true
text_leb (c ∷ s) [] = false
text_leb (c ∷ s) (d ∷ t) = ltb c d || ((c == d) && text_leb s t)

-- `sorted(calls, key=key)`, which keeps the order of equal keys
unfoldable pub insert_call : Builtins → Call → List Call → List Call
unfolding text_leb
insert_call b c [] = c ∷ []
insert_call b c (d ∷ ds) =
    let rest = insert_call b c ds in
    if text_leb (b.dumps c) (b.dumps d) then c ∷ (d ∷ ds) else d ∷ rest

unfoldable pub sort_calls : Builtins → List Call → List Call
unfolding insert_call
sort_calls b [] = []
sort_calls b (c ∷ cs) = insert_call b c (sort_calls b cs)

-- The calls of a list, where each item is one.
unfoldable pub calls_of : (Value → Option Call) → Items → Option (List Call)
calls_of read nil = some []
calls_of read (cons v vs) = elim (read v) [
  | none ↦ none
  | some c ↦ elim (calls_of read vs) [ none ↦ none | some cs ↦ some (c ∷ cs) ]
]

abbrev pub gold_raw : Value → Value
gold_raw (dict fs) = get_or_else (dict_get (codes "ground_truth") fs) (dict fs)
gold_raw v = v

-- `all(... for ... in zip(...))`
unfoldable pub all_match : Unicode → Builtins → List Call → List Call → Bool
unfolding bfcl_call_matches
all_match u b (c ∷ cs) (g ∷ gs) = bfcl_call_matches u b c g && all_match u b cs gs
all_match u b _ _ = true

abbrev pub compare_calls : Unicode → Builtins → Option (List Call) → Option (List Call) → Bool
compare_calls u b (some candidates) (some gold) =
    (length candidates == length gold)
    && all_match u b (sort_calls b candidates) (sort_calls b gold)
compare_calls u b _ _ = false

abbrev pub compare_to : Unicode → Builtins → Value → Option (List Call) → Bool
compare_to u b (list gold) candidates =
    compare_calls u b candidates (calls_of (bfcl_call_from_gold u b) gold)
compare_to u b v candidates = false

abbrev pub compare_raw : Unicode → Builtins → Value → Value → Bool
compare_raw u b nothing gold = false
compare_raw u b raw gold = compare_to u b gold (calls_of (bfcl_call_from_model b) (as_items raw))

-- `_check_bfcl`
unfoldable pub check_bfcl : Unicode → Builtins → Loads → Text → Value → Bool
unfolding extract_json_payload bfcl_call_from_model bfcl_call_from_gold calls_of all_match
    sort_calls dict_get
check_bfcl u b loads candidate reference =
    compare_raw u b (extract_json_payload u loads candidate) (gold_raw reference)
