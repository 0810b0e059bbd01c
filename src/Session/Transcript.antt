-- ===== src/Session/Transcript.antt =====
-- What the coordinator reads grows by one block a turn.
use mathlib.Core.List.{map-append}
use minirouter.Prelude.{◌≡◌, List, [], ◌∷◌, ◌++◌, map, codes}
use minirouter.Types.{Task, TurnRecord}
use minirouter.Roles.Prompts.Rendering.{join-append_singleton}
use minirouter.Session.{transcript_turn, transcript_text}

-- Each turn adds a blank line and its own block to the text that the coordinator reads; what it
-- read before stays a prefix.
pub transcript_text-append :
    (task : Task) (turns : List TurnRecord) (t : TurnRecord)
    → transcript_text task (turns ++ t ∷ [])
      ≡ transcript_text task turns ++ (codes "\n\n" ++ transcript_turn t)
unfolding transcript_text
transcript_text-append task turns t = rw (map-append transcript_turn turns (t ∷ [])) (
    join-append_singleton (codes "\n\n")
      ((codes "QUERY:\n" ++ task.prompt) ∷ map transcript_turn turns) (transcript_turn t) (λ e. cc))
