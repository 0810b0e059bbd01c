-- ===== src/Coordinator/Params/Tests.antt =====
-- A head of two rows with two columns, and three scales. The conversion halves the precision: it
-- rounds a number down to an even one.
use minirouter.Prelude.{ℕ, ◌*◌, ◌/◌, ◌≡◌, refl, [], ◌∷◌, arith, length}
use minirouter.Coordinator.Params.{returns, ParamSpec, Array, pack, unpack}
use minirouter.Coordinator.Params.RoundTrip.{IsSpec, converted, unpack-pack, pack-unpack}

abbrev spec : ParamSpec
spec = record { n_a = 2; d_h = 2; n_head = 4; n_svf = 3; n_total = 7 }

abbrev even : ℕ → ℕ
even n = n / 2 * 2

even_again : (n : ℕ) → even (even n) ≡ even n
even_again n = omega arith

spec-IsSpec : IsSpec spec
spec-IsSpec = record { head = refl; total = refl }

abbrev head_w : Array ℕ
head_w = record { shape = 2 ∷ 2 ∷ []; items = 1 ∷ 2 ∷ 3 ∷ 4 ∷ [] }

abbrev scales : Array ℕ
scales = record { shape = 3 ∷ []; items = 5 ∷ 6 ∷ 7 ∷ [] }

abbrev flat : Array ℕ
flat = record { shape = 7 ∷ []; items = 1 ∷ 2 ∷ 3 ∷ 4 ∷ 5 ∷ 6 ∷ 7 ∷ [] }

unpack-pack_example :
    (theta : Array ℕ) × (pack even 0 2 head_w scales ≡ returns theta)
    × (length theta.items ≡ 7)
    × (unpack even 0 2 theta spec ≡ returns (converted even head_w, converted even scales))
unpack-pack_example =
    unpack-pack even 0 2 spec head_w scales spec-IsSpec (record { shape = refl; size = refl })
      (record { shape = refl; size = refl }) even_again

pack-unpack_example :
    (w : Array ℕ) × (s : Array ℕ) × (unpack even 0 2 flat spec ≡ returns (w, s))
    × (pack even 0 2 w s
        ≡ returns (record { shape = 7 ∷ []; items = 0 ∷ 2 ∷ 2 ∷ 4 ∷ 4 ∷ 6 ∷ 6 ∷ [] }))
pack-unpack_example = pack-unpack even 0 2 spec flat spec-IsSpec refl even_again
