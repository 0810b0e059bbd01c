-- ===== src/Roles/Verifier/Closing.antt =====
-- The verdict that a Verifier's output ends with is the one that is parsed.
use minirouter.Prelude.{
  ℕ, ◌+◌, ◌≡◌, refl, some, List, [], ◌∷◌, ◌++◌, map, arith, Text, codes, strip, lstrip, length,
  take-append, strip-append_space, is_space,
}
use minirouter.Prelude.Unicode.{Unicode}
use minirouter.Roles.Verifier.{
  accept_text, revise_text, verdict_at, find_verdicts, last?, upper_letter, parse_verdict,
  extract_diagnosis,
}
use minirouter.Roles.Verifier.Cut.{closing, verdict_at-cut, find_verdicts-append}

last?-append_singleton {ℓ} : {A : Type ℓ} (xs : List A) (y : A) → last? (xs ++ y ∷ []) ≡ some y
unfolding last?
last?-append_singleton [] y = refl
last?-append_singleton (x ∷ []) y = refl
last?-append_singleton (x ∷ z ∷ zs) y = last?-append_singleton (z ∷ zs) y

-- A group that the closing line is read as.
abbrev IsRead : Unicode → Text → Text → Type 0
IsRead u w g = (pos : ℕ) → find_verdicts u pos 0 (closing w) ≡ (pos + 1, g) ∷ []

IsRead-accept : (u : Unicode) → IsRead u accept_text accept_text
unfolding find_verdicts verdict_at lstrip
IsRead-accept u pos = refl

IsRead-revise : (u : Unicode) → IsRead u revise_text revise_text
unfolding find_verdicts verdict_at lstrip
IsRead-revise u pos = refl

module _ (u : Unicode) (t w g : Text) (read : IsRead u w g) where
  last_match : last? (find_verdicts u 0 0 (t ++ closing w)) ≡ some (0 + length t + 1, g)
  last_match =
      rw
        (
          find_verdicts-append u (closing w) (λ s. verdict_at-cut u s w) 0 0 t (omega arith),
          read (0 + length t),
        )
        (last?-append_singleton (find_verdicts u 0 0 t) (0 + length t + 1, g))

  parse_closing : parse_verdict u (t ++ closing w) ≡ some (map upper_letter g)
  unfolding parse_verdict
  parse_closing = rw last_match

  diagnosis_closing : extract_diagnosis u (t ++ closing w) ≡ strip t
  unfolding extract_diagnosis
  diagnosis_closing =
      let e : 0 + length t + 1 ≡ length t + 1 = omega arith in
      rw (last_match, e, take-append t (closing w) 1)
        (strip-append_space t 10 (unfold is_space in refl))

-- Whatever stands in front of it, verdict lines of the other kind included, a closing line
-- `VERDICT: ACCEPT` or `VERDICT: REVISE` decides the parsed verdict, and the diagnosis is the text
-- in front of that line, stripped.
pub parse_verdict-closing :
    (u : Unicode) (t : Text)
    → (parse_verdict u (t ++ codes "\nVERDICT: ACCEPT") ≡ some accept_text)
      × (parse_verdict u (t ++ codes "\nVERDICT: REVISE") ≡ some revise_text)
      × (extract_diagnosis u (t ++ codes "\nVERDICT: ACCEPT") ≡ strip t)
      × (extract_diagnosis u (t ++ codes "\nVERDICT: REVISE") ≡ strip t)
unfolding upper_letter
parse_verdict-closing u t = (
  parse_closing u t accept_text accept_text (IsRead-accept u),
  parse_closing u t revise_text revise_text (IsRead-revise u),
  diagnosis_closing u t accept_text accept_text (IsRead-accept u),
  diagnosis_closing u t revise_text revise_text (IsRead-revise u),
)
