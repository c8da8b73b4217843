-- ===== src/Tests/Recipes.antt =====
-- The templates of tasks (app/models/template.py, app/services/template_service.py) on small inputs.
use ai_agent_task_assistant.Common.{
  ℕ, codes, text_eq, strip, lookup, insert, ◌≡◌, refl, ◌&&◌, Bool, true, none, some, [], ◌∷◌, leb,
}
use ai_agent_task_assistant.Templates.{
  AgentTemplate, initial, get_template, value_of, substitute, render,
}
use ai_agent_task_assistant.Templates.Listing.{find_all, collected, variables}
use ai_agent_task_assistant.Templates.Rendering.{render-variables}
use ai_agent_task_assistant.Templates.Kept.{deletes, run, run-keeps_builtin}

abbrev general : AgentTemplate
general = record {
  id = "general";
  name = "general";
  description = "any goal";
  category = "general";
  goal_template = codes "Do {goal} now";
  context_template = none;
  tags = [];
  is_builtin = true;
  created_at = "2026-01-01";
  updated_at = "2026-01-01";
}

abbrev is_small : ℕ → Bool
is_small c = leb 97 c && leb c 122

render_test : render is_small ((codes "goal", codes "it") ∷ []) general ≡ (codes "Do it now", none)
unfolding render substitute value_of text_eq strip
render_test = refl

run-keeps_builtin_example :
    get_template (run (initial (general ∷ [])) (deletes "general" ∷ [])) "general" ≡ some general
unfolding get_template initial lookup insert
run-keeps_builtin_example =
    run-keeps_builtin (deletes "general" ∷ []) (initial (general ∷ [])) "general" general refl refl

-- a second input has a value that the template does not ask for
render-variables_example :
    render is_small ((codes "goal", codes "it") ∷ []) general
    ≡ render is_small ((codes "mood", codes "glad") ∷ (codes "goal", codes "it") ∷ []) general
unfolding variables find_all collected value_of text_eq
render-variables_example =
    render-variables is_small ((codes "goal", codes "it") ∷ [])
      ((codes "mood", codes "glad") ∷ (codes "goal", codes "it") ∷ []) general (refl, tt)
