-- ===== src/Prelude/Decimal.antt =====
-- str(n) of a natural number.
use Prim.Native.Nat.{ℕ, zero, suc, ◌+◌, ◌/◌, ◌%◌}
use mathlib.Core.List.{[], ◌∷◌}
use minirouter.Prelude.Tests.{ltb, if◌then◌else◌}
use minirouter.Prelude.Str.{Text}

-- Each round moves one digit to `out`, so `n + 1` rounds are enough.
decimal_from : ℕ → ℕ → Text → Text
decimal_from zero n out = out
decimal_from (suc fuel) n out =
    let rest = decimal_from fuel (n / 10) ((b'0' + n % 10) ∷ out) in
    if ltb n 10 then (b'0' + n) ∷ out else rest

unfoldable pub decimal : ℕ → Text
unfolding decimal_from
decimal n = decimal_from (suc n) n []
