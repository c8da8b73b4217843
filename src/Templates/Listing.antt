-- ===== src/Templates/Listing.antt =====
-- The listing of templates (app/services/template_service.py) and a template's variables
-- (app/models/template.py). The order of Python's strings is an argument.
use ai_agent_task_assistant.Common.{
  ℕ, ◌≡◌, refl, String, Text, text_eq, Bool, true, false, not, ◌&&◌, ◌||◌, Option, none, some, List,
  [], ◌∷◌, ◌++◌, values, any, keep_if, nat_eq, ◌==◌, if◌then◌else◌, arith,
}
use ai_agent_task_assistant.Templates.{AgentTemplate, Store}

-- `if match not in found: found.append(match)`
unfoldable pub collected : List Text → List Text → List Text
collected found [] = found
collected found (name ∷ names) = elim (any (text_eq name) found) [
  | true ↦ collected found names
  | false ↦ collected (found ++ (name ∷ [])) names
]

abbrev pub context_text : Option Text → Text
context_text none = []
context_text (some s) = s

module _ (is_word : ℕ → Bool) where
  -- `_VARIABLE_PATTERN.findall`: outside of braces, or behind one that is open
  unfoldable pub find_all : Option Text → Text → List Text
  find_all none [] = []
  find_all (some name) [] = []
  find_all none (c ∷ s) = elim (nat_eq c 123) [
    | true ↦ find_all (some []) s
    | false ↦ find_all none s
  ]
  find_all (some name) (c ∷ s) = elim (is_word c) [
    | true ↦ find_all (some (name ++ (c ∷ []))) s
    | false ↦ elim (nat_eq c 125 && not (text_eq name [])) [
      | true ↦ name ∷ find_all none s
      | false ↦ elim (nat_eq c 123) [ true ↦ find_all (some []) s | false ↦ find_all none s ]
    ]
  ]

  unfoldable pub variables : AgentTemplate → List Text
  variables template =
      collected (collected [] (find_all none template.goal_template))
        (find_all none (context_text template.context_template))

module _ (before : String → String → Bool) where
  -- `(not t.is_builtin, t.name)` of one before that of the other
  abbrev goes_first : AgentTemplate → AgentTemplate → Bool
  goes_first t u =
      (t.is_builtin && not u.is_builtin)
      || ((t.is_builtin || not u.is_builtin) && before t.name u.name)

  abbrev placed : AgentTemplate → List AgentTemplate → List AgentTemplate
  placed t [] = t ∷ []
  placed t (u ∷ us) = let rest = placed t us in if goes_first u t then u ∷ rest else t ∷ u ∷ us

  abbrev sorted : List AgentTemplate → List AgentTemplate
  sorted [] = []
  sorted (t ∷ ts) = placed t (sorted ts)

  abbrev of_category : Option String → List AgentTemplate → List AgentTemplate
  of_category none ts = ts
  of_category (some category) ts =
      if category == "" then ts else keep_if (λ t. t.category == category) ts

  unfoldable pub list_templates : Store → Option String → List AgentTemplate
  list_templates store category = of_category category (sorted (values store))

  module _ (p : AgentTemplate → Bool) where
    any-placed :
        (t : AgentTemplate) (us : List AgentTemplate) → any p (placed t us) ≡ (p t || any p us)
    any-placed t [] = refl
    any-placed t (u ∷ us) = ground (arith, any-placed t us)

    any-sorted : (ts : List AgentTemplate) → any p (sorted ts) ≡ any p ts
    any-sorted [] = refl
    any-sorted (t ∷ ts) = ground (arith, any-placed t (sorted ts), any-sorted ts)

    -- The listing of all templates has one that passes a test exactly where the store has one.
    any-list_templates : (store : Store) → any p (list_templates store none) ≡ any p (values store)
    unfolding list_templates
    any-list_templates store = any-sorted (values store)
