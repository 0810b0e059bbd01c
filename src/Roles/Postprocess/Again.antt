-- ===== src/Roles/Postprocess/Again.antt =====
-- Post-processing an output a second time, as when a transcript is replayed.
use mathlib.Core.List.{reverse-append, append_assoc}
use native.Mathlib.Decide.{dec_le}
use minirouter.Prelude.{
  ℕ, zero, suc, ◌-◌, ◌/◌, ◌<◌, ◌≡◌, ◌≢◌, refl, ap, ◌⊎◌, inl, inr, Option, none, some, [], ◌∷◌, ◌++◌,
  reverse, arith, Text, strip, lstrip, length, length-reverse, length-drop, take, drop,
  take-append-drop, Starts-prefix, Starts-append, IsTrimmed, strip-IsTrimmed, strip_of_IsTrimmed,
}
use minirouter.Types.{Role}
use minirouter.Roles.Postprocess.{elision_marker, stripped, elide, truncate, postprocess}
use minirouter.Roles.Postprocess.Bounds.{
  length-elision_marker, length-elide, truncate_fits, truncate_unbounded, truncate_elided,
}

take-ne-nil : (n : ℕ) (t : Text) → 0 < n → 0 < length t → take n t ≢ []
take-ne-nil zero t h k = absurd (omega arith)
take-ne-nil (suc n) [] h k = absurd (omega arith)
take-ne-nil (suc n) (c ∷ t) h k = λ e. cc

ne-nil_of_length : (t : Text) → 0 < length t → reverse t ≢ []
ne-nil_of_length t h e = omega (arith, ap (λ (s : Text). length s) e, length-reverse t)

-- The front of a trimmed text and its end stay trimmed around the marker.
around-IsTrimmed :
    (text : Text) (n d : ℕ) (m : Text)
    → IsTrimmed text
    → 0 < n
    → d < length text
    → IsTrimmed (take n text ++ (m ++ drop d text))
around-IsTrimmed text n d m h k l = record {
  front =
      Starts-append (take n text) (m ++ drop d text)
        (Starts-prefix (take n text) (drop n text) (rw (take-append-drop n text) h.front))
        (take-ne-nil n text k (omega arith));
  back =
      rw
        (
          reverse-append (take n text) (m ++ drop d text),
          reverse-append m (drop d text),
          append_assoc (reverse (drop d text)) (reverse m) (reverse (take n text)),
        )
        (Starts-append (reverse (drop d text)) (reverse m ++ reverse (take n text))
          (Starts-prefix (reverse (drop d text)) (reverse (take d text))
            (rw (← reverse-append (take d text) (drop d text), take-append-drop d text) h.back))
          (ne-nil_of_length (drop d text) (omega (arith, length-drop d text))));
}

elide-IsTrimmed :
    (text : Text) (m : ℕ) → IsTrimmed text → 22 < m → m < length text → IsTrimmed (elide text m)
unfolding elide
elide-IsTrimmed text m h k l =
    around-IsTrimmed text ((m - length elision_marker) / 2)
      (length text - (m - length elision_marker - (m - length elision_marker) / 2)) elision_marker h
      (rw length-elision_marker (omega arith)) (rw length-elision_marker (omega arith))

truncate-truncate :
    (text : Text) (m : ℕ)
    → IsTrimmed text
    → (m ≡ 0) ⊎ (22 < m)
    → truncate (strip (truncate text m)) m ≡ truncate text m
truncate-truncate text m h (inl z) =
    rw (z, truncate_unbounded text, strip_of_IsTrimmed h) (truncate_unbounded text)
truncate-truncate text m h (inr k) = elim (dec_le (length text) m) [
  | yes p ↦ rw (truncate_fits text m p, strip_of_IsTrimmed h) (truncate_fits text m p)
  | no p ↦
      rw
        (
          truncate_elided text m (omega arith) (omega arith),
          strip_of_IsTrimmed (elide-IsTrimmed text m h k (omega arith)),
        )
        (truncate_fits (elide text m) m
          (omega (arith, length-elide text m (omega arith) (omega arith))))
]

stripped-IsTrimmed : (raw : Option Text) → IsTrimmed (stripped raw)
stripped-IsTrimmed none = record { front = unfold lstrip in refl; back = unfold lstrip in refl }
stripped-IsTrimmed (some raw) = strip-IsTrimmed raw

-- Without a budget, or with one of at least two characters past the marker (the default is one of
-- these), an output that is post-processed again stays as it is.
pub postprocess_again :
    (raw : Option Text) (role later : Role) (m : ℕ)
    → (m ≡ 0) ⊎ (22 < m)
    → postprocess (some (postprocess raw role m)) later m ≡ postprocess raw role m
unfolding postprocess
postprocess_again raw role later m h = truncate-truncate (stripped raw) m (stripped-IsTrimmed raw) h
