-- ===== src/Roles/Prompts/Rendering.antt =====
-- Rendering is incremental: a turn adds its own block.
use mathlib.Core.List.{append_assoc, map-append}
use minirouter.Prelude.{◌≡◌, ◌≢◌, refl, List, [], ◌∷◌, ◌++◌, map, Text, codes, join}
use minirouter.Types.{TurnRecord}
use minirouter.Roles.Prompts.{render_turn, render_transcript}

pub join-append_singleton :
    (sep : Text) (ps : List Text) (q : Text)
    → ps ≢ []
    → join sep (ps ++ q ∷ []) ≡ join sep ps ++ (sep ++ q)
unfolding join
join-append_singleton sep [] q h = absurd (h refl)
join-append_singleton sep (p ∷ []) q h = refl
join-append_singleton sep (p ∷ r ∷ ps) q h =
    simp (join-append_singleton sep (r ∷ ps) q (λ e. cc), append_assoc)

-- The rendering of a transcript with a later turn is the rendering before that turn, a blank line
-- and the block of that turn.
pub render_transcript-append :
    (first : TurnRecord) (rest : List TurnRecord) (rec : TurnRecord)
    → render_transcript ((first ∷ rest) ++ rec ∷ [])
      ≡ render_transcript (first ∷ rest) ++ (codes "\n\n" ++ render_turn rec)
unfolding render_transcript
render_transcript-append first rest rec = rw (map-append render_turn rest (rec ∷ [])) (
    join-append_singleton (codes "\n\n") (map render_turn (first ∷ rest)) (render_turn rec)
      (λ e. cc))
