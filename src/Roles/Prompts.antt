-- ===== src/Roles/Prompts.antt =====
-- src/trinity/roles/prompts.py: the chat messages for a role.
pub mod Rendering
mod Tests
use minirouter.Prelude.{
  ℕ, ◌-◌, Option, none, some, List, [], ◌∷◌, ◌++◌, map, Text, codes, strip, join, decimal,
  if◌then◌else◌,
}
use minirouter.Prelude.Unicode.{is_lower_ascii}
use minirouter.Types.{Role, TurnRecord, thinker, worker, verifier, value}

unfoldable pub thinker_system : Text
thinker_system =
    codes "You are the THINKER. Do NOT solve the task end-to-end.\n"
    ++ (codes "Analyze the current state and produce meta-level guidance: a concise high-level\n"
        ++ (codes
              "plan, a decomposition into subgoals, or a critique of the partial solution so far.\n"
            ++ (codes "You may recommend which role should act next.\n"
                ++ codes "Return only your plan/critique.")))

unfoldable pub worker_system : Text
worker_system =
    codes "You are the WORKER. Make concrete progress toward the final answer.\n"
    ++ (codes "Follow any plan in the transcript. Produce actionable content: the derivation,\n"
        ++ (codes "the code, or the numerical/final result. Be explicit and complete.\n"
            ++ codes "Return your solution work."))

unfoldable pub verifier_system : Text
verifier_system =
    codes "You are the VERIFIER. Check whether the accumulated solution is correct, complete,\n"
    ++ (codes "and responsive to the query.\n"
        ++ (codes "End your response with EXACTLY one line:\n"
            ++ (codes "VERDICT: ACCEPT      (if the current answer is correct and final)\n"
                ++ codes "VERDICT: REVISE      (otherwise, with a one-line diagnosis above it)")))

-- _SYSTEM_BY_ROLE[role]
unfoldable pub system_by_role : Role → Text
system_by_role thinker = thinker_system
system_by_role worker = worker_system
system_by_role verifier = verifier_system

-- role.value.upper()
abbrev upper_value : Role → Text
upper_value role = map (λ c. if is_lower_ascii c then c - 32 else c) (value role)

abbrev with_verdict : Role → Option Text → Text → Text
with_verdict verifier (some verdict) body =
    body ++ (codes "\n[parsed verdict: " ++ (verdict ++ codes "]"))
with_verdict _ _ body = body

-- one round of the loop of `render_transcript`
unfoldable pub render_turn : TurnRecord → Text
render_turn rec =
    codes "--- Turn "
    ++ (decimal rec.turn
        ++ (codes " | agent="
            ++ (rec.agent_name
                ++ (codes " | role="
                    ++ (upper_value rec.role
                        ++ (codes " ---\n"
                            ++ with_verdict rec.role rec.verdict (strip rec.processed_output)))))))

unfoldable pub render_transcript : List TurnRecord → Text
render_transcript [] = codes "(no prior turns yet)"
render_transcript (rec ∷ transcript) = join (codes "\n\n") (map render_turn (rec ∷ transcript))

pub record Message : Type 0 where
  pub role : Text
  pub content : Text

unfoldable pub build_messages : Role → Text → List TurnRecord → List Message
build_messages role query transcript =
    record { role = codes "system"; content = system_by_role role }
    ∷ record {
      role = codes "user";
      content =
          codes "QUERY:\n"
          ++ (query ++ (codes "\n\nTRANSCRIPT SO FAR:\n" ++ render_transcript transcript));
    }
    ∷ []
