-- ===== src/Graders/Boxed/Balanced.antt =====
-- The contents of a box: texts whose braces pair up, and texts without a marker.
use minirouter.Prelude.{
  ℕ, suc, ◌≡◌, refl, sym, ap, ◌∙◌, Option, none, some, [], ◌∷◌, ◌++◌, Text, ◌==◌, false,
}
use minirouter.Graders.Boxed.{marker, behind_prefix, behind, with_front, inner_of, other, sign_of}
use mathlib.Core.List.{append_assoc}

-- Texts whose braces pair up.
pub data IsBalanced : Text → Type 0 where
  empty : IsBalanced []
  plain : {c : ℕ} {s : Text} → sign_of c ≡ other → IsBalanced s → IsBalanced (c ∷ s)
  group : {a s : Text} → IsBalanced a → IsBalanced s → IsBalanced (b'{' ∷ (a ++ (b'}' ∷ s)))

-- Texts without a backslash, so without a marker.
pub data IsPlain : Text → Type 0 where
  empty : IsPlain []
  more : {c : ℕ} {s : Text} → (b'\\' == c) ≡ false → IsPlain s → IsPlain (c ∷ s)

-- A text in front of the content.
unfoldable pub with_text : Text → Option (Text × Text) → Option (Text × Text)
with_text [] o = o
with_text (c ∷ a) o = with_front c (with_text a o)

with_text-append :
    (a b : Text) (o : Option (Text × Text)) → with_text (a ++ b) o ≡ with_text a (with_text b o)
unfolding with_text
with_text-append [] b o = refl
with_text-append (c ∷ a) b o = ap (with_front c) (with_text-append a b o)

pub with_text-some :
    (a inner rest : Text) → with_text a (some (inner, rest)) ≡ some (a ++ inner, rest)
unfolding with_text
with_text-some [] inner rest = refl
with_text-some (c ∷ a) inner rest = ap (with_front c) (with_text-some a inner rest)

-- The scan passes over a balanced text at any depth.
pub inner_of-IsBalanced :
    {a : Text} (depth : ℕ) (s : Text)
    → IsBalanced a
    → inner_of depth (a ++ s) ≡ with_text a (inner_of depth s)
unfolding inner_of with_text
inner_of-IsBalanced depth s empty = refl
inner_of-IsBalanced depth s (plain {c = c} {s = a} e h) =
    rw (e, inner_of) (ap (with_front c) (inner_of-IsBalanced depth s h))
inner_of-IsBalanced depth s (group {a = a} {s = b} h k) = ap (with_front b'{') (
    ap (inner_of (suc depth)) (append_assoc a (b'}' ∷ b) s)
    ∙ inner_of-IsBalanced (suc depth) (b'}' ∷ (b ++ s)) h
    ∙ ap (λ o. with_text a (with_front b'}' o)) (inner_of-IsBalanced depth s k)
    ∙ sym (with_text-append a (b'}' ∷ b) (inner_of depth s)))

behind_prefix-miss : (c : ℕ) (s : Text) → (b'\\' == c) ≡ false → behind_prefix marker (c ∷ s) ≡ none
unfolding behind_prefix
behind_prefix-miss c s e = rw (e, behind_prefix) refl

behind-miss : (c : ℕ) (s : Text) → (b'\\' == c) ≡ false → behind marker (c ∷ s) ≡ behind marker s
unfolding behind
behind-miss c s e = rw (behind_prefix-miss c s e, behind) refl

behind-marker : (s : Text) → behind marker (marker ++ s) ≡ some s
unfolding behind behind_prefix
behind-marker s = refl

behind-marker-empty : behind marker [] ≡ none
unfolding behind behind_prefix
behind-marker-empty = refl

pub behind-IsPlain : {t : Text} (s : Text) → IsPlain t → behind marker (t ++ (marker ++ s)) ≡ some s
behind-IsPlain s empty = behind-marker s
behind-IsPlain s (more {c = c} {s = t} e h) =
    behind-miss c (t ++ (marker ++ s)) e ∙ behind-IsPlain s h

pub behind-absent : {t : Text} → IsPlain t → behind marker t ≡ none
behind-absent empty = behind-marker-empty
behind-absent (more {c = c} {s = t} e h) = behind-miss c t e ∙ behind-absent h
