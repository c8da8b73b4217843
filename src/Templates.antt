-- ===== src/Templates.antt =====
-- app/models/template.py and app/services/template_service.py: the templates of tasks, and the
-- creation of a task from one. Which characters `\w` stands for is an argument, and so are the new
-- identifier and the time; the seed data is any list of built-in templates.
pub mod Kept
pub mod Listing
pub mod Rendering
use ai_agent_task_assistant.Common.{
  ℕ, String, Text, text_eq, strip, Bool, true, false, not, ◌&&◌, ◌||◌, Option, none, some, List, [],
  ◌∷◌, ◌++◌, Dict, lookup, insert, values, keep_if, nat_eq, ◌==◌, if◌then◌else◌,
}
use ai_agent_task_assistant.Tasks.Repository.{Repo}
use ai_agent_task_assistant.Tasks.Service.{create_task}

pub record AgentTemplate : Type 0 where
  pub id : String
  pub name : String
  pub description : String
  pub category : String
  pub goal_template : Text
  pub context_template : Option Text
  pub tags : List String
  pub is_builtin : Bool
  pub created_at : String
  pub updated_at : String

abbrev pub Inputs : Type 0
Inputs = List (Text × Text)

-- `inputs.get(name, "")`
unfoldable pub value_of : Inputs → Text → Text
value_of [] name = []
value_of ((k, v) ∷ inputs) name =
    let rest = value_of inputs name in if text_eq k name then v else rest

module _ (is_word : ℕ → Bool) (inputs : Inputs) where
  -- `_VARIABLE_PATTERN.sub`: outside of braces, or behind one that is open, with the letters since
  unfoldable pub substitute : Option Text → Text → Text
  substitute none [] = []
  substitute (some name) [] = 123 ∷ name
  substitute none (c ∷ s) = elim (nat_eq c 123) [
    | true ↦ substitute (some []) s
    | false ↦ c ∷ substitute none s
  ]
  substitute (some name) (c ∷ s) = elim (is_word c) [
    | true ↦ substitute (some (name ++ (c ∷ []))) s
    | false ↦ elim (nat_eq c 125 && not (text_eq name [])) [
      | true ↦ value_of inputs name ++ substitute none s
      | false ↦ elim (nat_eq c 123) [
        | true ↦ (123 ∷ name) ++ substitute (some []) s
        | false ↦ (123 ∷ name) ++ (c ∷ substitute none s)
      ]
    ]
  ]

  abbrev pub or_none : Text → Option Text
  or_none [] = none
  or_none (c ∷ s) = some (c ∷ s)

  abbrev pub rendered_context : Option Text → Option Text
  rendered_context none = none
  rendered_context (some []) = none
  rendered_context (some (c ∷ s)) = or_none (strip (substitute none (c ∷ s)))

  unfoldable pub render : AgentTemplate → Text × Option Text
  render template =
      (strip (substitute none template.goal_template), rendered_context template.context_template)

abbrev pub Store : Type 0
Store = Dict AgentTemplate

abbrev pub seeded : Store → List AgentTemplate → Store
seeded store [] = store
seeded store (t ∷ templates) = seeded (insert t.id t store) templates

-- `__init__`
unfoldable pub initial : List AgentTemplate → Store
initial templates = seeded [] templates

unfoldable pub get_template : Store → String → Option AgentTemplate
get_template store template_id = lookup template_id store

pub record AgentTemplateCreate : Type 0 where
  pub name : String
  pub description : String
  pub category : String
  pub goal_template : Text
  pub context_template : Option Text
  pub tags : List String

abbrev pub made_from : String → String → AgentTemplateCreate → AgentTemplate
made_from template_id now request = record {
  id = template_id;
  name = request.name;
  description = request.description;
  category = request.category;
  goal_template = request.goal_template;
  context_template = request.context_template;
  tags = request.tags;
  is_builtin = false;
  created_at = now;
  updated_at = now;
}

unfoldable pub create_template :
    String → String → Store → AgentTemplateCreate → AgentTemplate × Store
create_template template_id now store request = (
  made_from template_id now request,
  insert template_id (made_from template_id now request) store,
)

-- the fields that are set, and not to `None`
pub record AgentTemplateUpdate : Type 0 where
  pub name : Option String
  pub description : Option String
  pub category : Option String
  pub goal_template : Option Text
  pub context_template : Option Text
  pub tags : Option (List String)

abbrev or_kept {ℓ} : {A : Type ℓ} → Option A → A → A
or_kept none current = current
or_kept (some new) current = new

abbrev or_same : Option Text → Option Text → Option Text
or_same none current = current
or_same (some new) current = some new

abbrev pub changed : String → AgentTemplateUpdate → AgentTemplate → AgentTemplate
changed now u template = record template {
  name = or_kept u.name template.name;
  description = or_kept u.description template.description;
  category = or_kept u.category template.category;
  goal_template = or_kept u.goal_template template.goal_template;
  context_template = or_same u.context_template template.context_template;
  tags = or_kept u.tags template.tags;
  updated_at = now;
}

-- the template of that id, unless it is missing or built in
abbrev pub own : Option AgentTemplate → Option AgentTemplate
own none = none
own (some template) = if template.is_builtin then none else some template

unfoldable pub update_template :
    String → Store → String → AgentTemplateUpdate → Option AgentTemplate × Store
update_template now store template_id request = elim (own (lookup template_id store)) [
  | none ↦ (none, store)
  | some template ↦
      (some (changed now request template), insert template_id (changed now request template) store)
]

-- `del d[k]`
unfoldable pub without : String → Store → Store
without k [] = []
without k ((j, t) ∷ store) = let rest = without k store in if j == k then rest else (j, t) ∷ rest

unfoldable pub delete_template : Store → String → Bool × Store
delete_template store template_id = elim (own (lookup template_id store)) [
  | none ↦ (false, store)
  | some template ↦ (true, without template_id store)
]

-- what a creation of a task from a template ends with: an exception, or the task's identifier
pub data Made : Type 0 where
  no_template no_goal : Made
  created : String → Made

module _ (is_word : ℕ → Bool) (text_to_string : Text → String) where
  abbrev optional_string : Option Text → Option String
  optional_string none = none
  optional_string (some t) = some (text_to_string t)

  abbrev from_rendered : String → String → Repo → String → String → Text × Option Text → Made × Repo
  from_rendered task_id now repo owner_id tenant_id ([], context) = (no_goal, repo)
  from_rendered task_id now repo owner_id tenant_id (c ∷ goal, context) =
      let (id, repo') =
        create_task task_id now repo (text_to_string (c ∷ goal)) (optional_string context) owner_id
          tenant_id in
      (created id, repo')

  unfoldable pub create_task_from_template :
      String → String → Store → Repo → String → Inputs → String → String → Made × Repo
  create_task_from_template task_id now store repo template_id inputs owner_id tenant_id =
      elim (get_template store template_id) [
        | none ↦ (no_template, repo)
        | some template ↦
            from_rendered task_id now repo owner_id tenant_id (render is_word inputs template)
      ]
