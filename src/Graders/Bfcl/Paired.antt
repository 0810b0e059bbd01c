-- ===== src/Graders/Bfcl/Paired.antt =====
-- What it takes that the calls of an answer are accepted.
use mathlib.Core.List.{Perm}
use mathlib.Core.List.Perm
use minirouter.Prelude.{
  ◌+◌, ◌≡◌, refl, ◌∙◌, sym, Bool, true, false, ◌&&◌, Bool-cases, inl, inr, Option, none, some, List,
  [], ◌∷◌, Text, length, ◌==◌, ==_iff, arith,
}
use minirouter.Prelude.Unicode.{Unicode}
use minirouter.Py.{Value, nothing, truth, int, str, list, tuple, dict, other, Items}
use minirouter.Graders.Json.{Loads, extract_json_payload}
use minirouter.Graders.Bfcl.{
  Call, Builtins, bfcl_call_from_model, bfcl_call_from_gold, bfcl_call_matches, text_leb,
  insert_call, sort_calls, calls_of, as_items, gold_raw, all_match, compare_calls, compare_to,
  compare_raw, check_bfcl,
}

insert_call-Perm : (b : Builtins) (c : Call) (ds : List Call) → Perm (insert_call b c ds) (c ∷ ds)
unfolding insert_call
insert_call-Perm b c [] = Perm.refl (c ∷ [])
insert_call-Perm b c (d ∷ ds) = elim (Bool-cases (text_leb (b.dumps c) (b.dumps d))) [
  | inl e ↦ rw e (Perm.refl (c ∷ d ∷ ds))
  | inr e ↦ rw e (Perm.trans (Perm.cons d (insert_call-Perm b c ds)) (Perm.swap c d ds))
]

sort_calls-Perm : (b : Builtins) (cs : List Call) → Perm (sort_calls b cs) cs
unfolding sort_calls
sort_calls-Perm b [] = Perm.refl []
sort_calls-Perm b (c ∷ cs) =
    Perm.trans (insert_call-Perm b c (sort_calls b cs)) (Perm.cons c (sort_calls-Perm b cs))

length-insert_call :
    (b : Builtins) (c : Call) (ds : List Call) → length (insert_call b c ds) ≡ length ds + 1
unfolding insert_call
length-insert_call b c [] = refl
length-insert_call b c (d ∷ ds) = elim (Bool-cases (text_leb (b.dumps c) (b.dumps d))) [
  | inl e ↦ rw e (omega arith)
  | inr e ↦ rw e (let k = length-insert_call b c ds in omega arith)
]

length-sort_calls : (b : Builtins) (cs : List Call) → length (sort_calls b cs) ≡ length cs
unfolding sort_calls
length-sort_calls b [] = refl
length-sort_calls b (c ∷ cs) =
    let k = length-sort_calls b cs in
    let n = length-insert_call b c (sort_calls b cs) in omega arith

-- Two lists of calls that match one by one.
pub data AreMatched (u : Unicode) (b : Builtins) : List Call → List Call → Type 0 where
  no_call : AreMatched u b [] []
  pair :
      {c g : Call} {cs gs : List Call}
      → bfcl_call_matches u b c g ≡ true
      → AreMatched u b cs gs
      → AreMatched u b (c ∷ cs) (g ∷ gs)

-- The answer's calls and the gold calls, each in some order, that match one by one.
pub record IsAccepted (u : Unicode) (b : Builtins) (answer gold : Items) : Type 0 where
  pub candidates : List Call
  pub golds : List Call
  pub front : List Call
  pub back : List Call
  pub read : calls_of (bfcl_call_from_model b) answer ≡ some candidates
  pub read_gold : calls_of (bfcl_call_from_gold u b) gold ≡ some golds
  pub order : Perm front candidates
  pub order_gold : Perm back golds
  pub matched : AreMatched u b front back

all_match-AreMatched :
    (u : Unicode) (b : Builtins) (cs gs : List Call)
    → length cs ≡ length gs
    → all_match u b cs gs ≡ true
    → AreMatched u b cs gs
unfolding all_match
all_match-AreMatched u b [] [] n h = no_call
all_match-AreMatched u b [] (g ∷ gs) n h = absurd (omega arith)
all_match-AreMatched u b (c ∷ cs) [] n h = absurd (omega arith)
all_match-AreMatched u b (c ∷ cs) (g ∷ gs) n h = elim (Bool-cases (bfcl_call_matches u b c g)) [
  | inl e ↦ pair e (all_match-AreMatched u b cs gs (omega arith) (rw e at h))
  | inr e ↦ absurd (ground arith)
]

and-cases : (x y : Bool) → (x && y) ≡ true → (x ≡ true) × (y ≡ true)
and-cases true y h = (refl, h)
and-cases false y h = absurd (ground arith)

-- A JSON answer is accepted only where it is a call, or a list of calls, and the reference a list
-- of gold calls, and some order of the answer's calls matches some order of the gold calls one by
-- one: none of either is left over.
pub check_bfcl-IsAccepted :
    (u : Unicode) (b : Builtins) (loads : Loads) (candidate : Text) (reference : Value)
    → check_bfcl u b loads candidate reference ≡ true
    → (gold : Items) × (gold_raw reference ≡ list gold)
      × IsAccepted u b (as_items (extract_json_payload u loads candidate)) gold
unfolding check_bfcl
check_bfcl-IsAccepted u b loads candidate reference h =
    raw (extract_json_payload u loads candidate) (gold_raw reference) h
  where
    calls :
        (answer gold : Items) (cs gs : Option (List Call))
        → calls_of (bfcl_call_from_model b) answer ≡ cs
        → calls_of (bfcl_call_from_gold u b) gold ≡ gs
        → compare_calls u b cs gs ≡ true
        → IsAccepted u b answer gold
    calls answer gold none gs e f h = absurd (ground arith)
    calls answer gold (some cs) none e f h = absurd (ground arith)
    calls answer gold (some cs) (some gs) e f h =
        let (n, k) =
          and-cases (length cs == length gs) (all_match u b (sort_calls b cs) (sort_calls b gs))
            h in
        let same = (==_iff (length cs) (length gs)).0 n in
        record {
          candidates = cs;
          golds = gs;
          front = sort_calls b cs;
          back = sort_calls b gs;
          read = e;
          read_gold = f;
          order = sort_calls-Perm b cs;
          order_gold = sort_calls-Perm b gs;
          matched =
              all_match-AreMatched u b (sort_calls b cs) (sort_calls b gs)
                (length-sort_calls b cs ∙ same ∙ sym (length-sort_calls b gs)) k;
        }

    to :
        (raw g : Value)
        → compare_to u b g (calls_of (bfcl_call_from_model b) (as_items raw)) ≡ true
        → (gold : Items) × (g ≡ list gold) × IsAccepted u b (as_items raw) gold
    to raw (list gold) h = (
      gold,
      refl,
      calls (as_items raw) gold (calls_of (bfcl_call_from_model b) (as_items raw))
          (calls_of (bfcl_call_from_gold u b) gold) refl refl h,
    )
    to raw nothing h = absurd (ground arith)
    to raw (truth x) h = absurd (ground arith)
    to raw (int x) h = absurd (ground arith)
    to raw (str x) h = absurd (ground arith)
    to raw (tuple x) h = absurd (ground arith)
    to raw (dict x) h = absurd (ground arith)
    to raw (other x) h = absurd (ground arith)

    raw :
        (r g : Value)
        → compare_raw u b r g ≡ true
        → (gold : Items) × (g ≡ list gold) × IsAccepted u b (as_items r) gold
    raw nothing g h = absurd (ground arith)
    raw (truth x) g h = to (truth x) g h
    raw (int x) g h = to (int x) g h
    raw (str x) g h = to (str x) g h
    raw (list x) g h = to (list x) g h
    raw (tuple x) g h = to (tuple x) g h
    raw (dict x) g h = to (dict x) g h
    raw (other x) g h = to (other x) g h
