-- ===== src/Roles/Prompts/Tests.antt =====
-- Renderings of a transcript without turns.
use minirouter.Prelude.{◌≡◌, refl, [], codes}
use minirouter.Types.{worker}
use minirouter.Roles.Prompts.{render_transcript, worker_system, system_by_role}

no_turns : render_transcript [] ≡ codes "(no prior turns yet)"
unfolding render_transcript
no_turns = refl

-- The system's message of a role comes first.
system_role : system_by_role worker ≡ worker_system
unfolding system_by_role
system_role = refl
