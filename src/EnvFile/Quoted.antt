-- ===== src/EnvFile/Quoted.antt =====
-- Quoted values.
use minirouter.Prelude.{ℕ, ◌≡◌, false, ◌==◌, [], ◌∷◌, Text}

-- A text without a character.
pub data IsFree (c : ℕ) : Text → Type 0 where
  empty : IsFree c []
  more : {d : ℕ} {s : Text} → (d == c) ≡ false → IsFree c s → IsFree c (d ∷ s)
