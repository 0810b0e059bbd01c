-- ===== src/Fugu/Gate/Reads.antt =====
-- What the access of a step reads.
use minirouter.Prelude.{
  ℕ, ◌<◌, Bool, true, false, List, [], ◌∷◌, arith, Text, codes, text_eq, strip, ltb, if◌then◌else◌,
}
use minirouter.Prelude.Unicode.{Unicode, isdigit, lower}
use minirouter.Py.{Value, pos, nothing, int, str, list, tuple}
use minirouter.Fugu.Extract.{to_list}
use minirouter.Fugu.Gate.{
  Checked, ok, reject, ◌>>=◌, Access, all, steps, parse_int, access_index, access_indices,
  insert_unique, sort_unique, normalize_items, normalize_text, normalize_access, names_query,
  steps_of,
}
use minirouter.Fugu.Gate.Holds.{Holds, Holds-bind, Holds-any, Holds-if}

-- All indices lie below `i`, and they ascend strictly.
abbrev pub AllBelow : ℕ → List ℕ → Type 0
AllBelow i [] = Unit
AllBelow i (j ∷ js) = (j < i) × AllBelow i js

abbrev pub AllAbove : ℕ → List ℕ → Type 0
AllAbove i [] = Unit
AllAbove i (j ∷ js) = (i < j) × AllAbove i js

abbrev pub Ascends : List ℕ → Type 0
Ascends [] = Unit
Ascends (j ∷ js) = AllAbove j js × Ascends js

abbrev pub IsAccess : ℕ → Access → Type 0
IsAccess i all = Unit
IsAccess i (steps js) = AllBelow i js × Ascends js

prior-lt : (i j : ℕ) → Holds (λ k. k < i) (if ltb j i then ok j else reject)
prior-lt i j = Holds-if _ (ltb j i) (ok j) reject (λ h. ground arith) (λ h. tt)

access_index-lt : (u : Unicode) (i : ℕ) (v : Value) → Holds (λ j. j < i) (access_index u i v)
unfolding access_index
access_index-lt u i (str s) =
    Holds-if _ (isdigit u (strip s)) _ reject
      (λ h.
        Holds-bind _ _ (parse_int u (strip s)) _ (Holds-any (parse_int u (strip s)))
          (λ j _. prior-lt i j))
      (λ h. tt)
access_index-lt u i (int (pos n)) = prior-lt i n
access_index-lt u i _ = tt

access_indices-AllBelow :
    (u : Unicode) (i : ℕ) (vs : List Value) → Holds (AllBelow i) (access_indices u i vs)
unfolding access_indices
access_indices-AllBelow u i [] = tt
access_indices-AllBelow u i (v ∷ vs) =
    Holds-bind (λ j. j < i) _ (access_index u i v) _ (access_index-lt u i v)
      (λ j p.
        Holds-bind (AllBelow i) _ (access_indices u i vs) _ (access_indices-AllBelow u i vs)
          (λ js q. (p, q)))

insert_unique-AllBelow :
    (i j : ℕ) (ks : List ℕ) → j < i → AllBelow i ks → AllBelow i (insert_unique j ks)
unfolding insert_unique
insert_unique-AllBelow i j [] h a = (h, tt)
insert_unique-AllBelow i j (k ∷ ks) h a = ground (arith, insert_unique-AllBelow i j ks h)

insert_unique-AllAbove :
    (i j : ℕ) (ks : List ℕ) → i < j → AllAbove i ks → AllAbove i (insert_unique j ks)
unfolding insert_unique
insert_unique-AllAbove i j [] h a = (h, tt)
insert_unique-AllAbove i j (k ∷ ks) h a = ground (arith, insert_unique-AllAbove i j ks h)

AllAbove-lower : (i j : ℕ) (ks : List ℕ) → i < j → AllAbove j ks → AllAbove i ks
AllAbove-lower i j [] h a = tt
AllAbove-lower i j (k ∷ ks) h a = (omega arith, AllAbove-lower i j ks h a.1)

insert_unique-Ascends : (j : ℕ) (ks : List ℕ) → Ascends ks → Ascends (insert_unique j ks)
unfolding insert_unique
insert_unique-Ascends j [] a = (tt, tt)
insert_unique-Ascends j (k ∷ ks) a =
    ground
      (arith, insert_unique-Ascends j ks a.1, insert_unique-AllAbove k j ks, AllAbove-lower j k ks)

sort_unique-IsAccess : (i : ℕ) (js : List ℕ) → AllBelow i js → IsAccess i (steps (sort_unique js))
unfolding sort_unique
sort_unique-IsAccess i [] h = (tt, tt)
sort_unique-IsAccess i (j ∷ js) h =
    let (below, up) = sort_unique-IsAccess i js h.1 in
    (
      insert_unique-AllBelow i j (sort_unique js) h.0 below,
      insert_unique-Ascends j (sort_unique js) up,
    )

indices-IsAccess :
    (u : Unicode) (i : ℕ) (vs : List Value)
    → Holds (IsAccess i) (access_indices u i vs >>= λ out. ok (steps (sort_unique out)))
indices-IsAccess u i vs =
    Holds-bind (AllBelow i) _ (access_indices u i vs) _ (access_indices-AllBelow u i vs)
      (λ js h. sort_unique-IsAccess i js h)

-- The words for "all" and for the query alone, in front of another reading.
words-IsAccess :
    (i : ℕ) (is_all is_query : Bool) (m : Checked Access)
    → Holds (IsAccess i) m
    → Holds (IsAccess i) (if is_all then ok all else if is_query then ok (steps []) else m)
words-IsAccess i true is_query m h = tt
words-IsAccess i false true m h = (tt, tt)
words-IsAccess i false false m h = h

normalize_items-IsAccess :
    (u : Unicode) (i : ℕ) (vs : List Value) → Holds (IsAccess i) (normalize_items u i vs)
unfolding normalize_items
normalize_items-IsAccess u i (str s ∷ []) =
    words-IsAccess i (text_eq (lower u (strip s)) (codes "all")) (names_query (lower u (strip s)))
      (steps_of (access_indices u i (str s ∷ []))) (indices-IsAccess u i (str s ∷ []))
normalize_items-IsAccess u i vs = indices-IsAccess u i vs

single-IsAccess :
    (i j : ℕ) → Holds (IsAccess i) ((if ltb j i then ok j else reject) >>= λ k. ok (steps (k ∷ [])))
single-IsAccess i j =
    Holds-bind (λ k. k < i) _ (if ltb j i then ok j else reject) _ (prior-lt i j)
      (λ k h. ((h, tt), (tt, tt)))

normalize_text-IsAccess :
    (u : Unicode) (i : ℕ) (s : Text) → Holds (IsAccess i) (normalize_text u i s)
unfolding normalize_text
normalize_text-IsAccess u i s =
    words-IsAccess i (text_eq s (codes "all")) (names_query s)
      (if isdigit u s
        then (parse_int u s >>= λ j.
            (if ltb j i then ok j else reject) >>= λ k. ok (steps (k ∷ [])))
        else reject)
      (Holds-if (IsAccess i) (isdigit u s)
        (parse_int u s >>= λ j. (if ltb j i then ok j else reject) >>= λ k. ok (steps (k ∷ [])))
        reject
        (λ h.
          Holds-bind _ (IsAccess i) (parse_int u s) _ (Holds-any (parse_int u s))
            (λ j _. single-IsAccess i j))
        (λ h. tt))

pub normalize_access-IsAccess :
    (u : Unicode) (v : Value) (i : ℕ) → Holds (IsAccess i) (normalize_access u v i)
unfolding normalize_access
normalize_access-IsAccess u nothing i = (tt, tt)
normalize_access-IsAccess u (str s) i = normalize_text-IsAccess u i (lower u (strip s))
normalize_access-IsAccess u (list vs) i = normalize_items-IsAccess u i (to_list vs)
normalize_access-IsAccess u (tuple vs) i = normalize_items-IsAccess u i (to_list vs)
normalize_access-IsAccess u _ i = tt
