-- ===== src/Tools/Registry.antt =====
-- app/tools/registry.py: the registered tools by name. The category by which the registry filters is
-- a function of the tool.
use ai_agent_task_assistant.Common.{
  String, ◌≡◌, Option, none, some, List, [], ◌∷◌, Dict, lookup, insert, values, lookup-insert, any,
  keep_if, ◌==◌, eq_iff, if◌then◌else◌, arith,
}

module _ {BaseTool : Type 0} (name_of : BaseTool → String) where
  unfoldable pub register : Dict BaseTool → BaseTool → Dict BaseTool
  register tools tool = insert (name_of tool) tool tools

  -- `pop(name, None)`
  unfoldable pub unregister : Dict BaseTool → String → Dict BaseTool
  unregister [] name = []
  unregister ((k, t) ∷ tools) name =
      let rest = unregister tools name in if k == name then rest else (k, t) ∷ rest

  unfoldable pub get : Dict BaseTool → String → Option BaseTool
  get tools name = lookup name tools

  unfoldable pub get_tools_by_categories :
      (BaseTool → String) → Dict BaseTool → List String → List BaseTool
  get_tools_by_categories category_of tools categories =
      keep_if (λ t. any (λ c. category_of t == c) categories) (values tools)

  get-register :
      (tools : Dict BaseTool) (tool : BaseTool) (name : String)
      → get (register tools tool) name
        ≡ (if name_of tool == name then some tool else get tools name)
  unfolding get register
  get-register tools tool name = lookup-insert (name_of tool) name tool tools

  get-unregister :
      (tools : Dict BaseTool) (name other : String)
      → get (unregister tools name) other ≡ (if name == other then none else get tools other)
  unfolding get unregister lookup
  get-unregister [] name other = ground arith
  get-unregister ((k, t) ∷ tools) name other =
      ground
        (arith, eq_iff k name, eq_iff k other, eq_iff name other, get-unregister tools name other)
