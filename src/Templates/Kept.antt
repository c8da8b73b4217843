-- ===== src/Templates/Kept.antt =====
-- Built-in templates under the calls of app/services/template_service.py.
use ai_agent_task_assistant.Common.{
  String, ◌≡◌, inl, inr, ap, ◌∙◌, true, false, Bool-cases, Option-cases, none, some, List, [], ◌∷◌,
  lookup, lookup-insert, ◌==◌, eq_iff, arith, if◌then◌else◌,
}
use ai_agent_task_assistant.Templates.{
  AgentTemplate, Store, get_template, AgentTemplateCreate, made_from, create_template,
  AgentTemplateUpdate, changed, own, update_template, without, delete_template,
}

-- a call that writes; a new template has an identifier that is not in use
pub data Call : Type 0 where
  creates : String → String → AgentTemplateCreate → Call
  updates : String → String → AgentTemplateUpdate → Call
  deletes : String → Call

unfoldable pub apply : Store → Call → Store
apply store (creates template_id now request) = elim (get_template store template_id) [
  | none ↦ (create_template template_id now store request).1
  | some template ↦ store
]
apply store (updates now template_id request) = (update_template now store template_id request).1
apply store (deletes template_id) = (delete_template store template_id).1

unfoldable pub run : Store → List Call → Store
run store [] = store
run store (c ∷ calls) = run (apply store c) calls

lookup-without :
    (k j : String) (store : Store)
    → lookup j (without k store) ≡ (if k == j then none else lookup j store)
unfolding lookup without
lookup-without k j [] = ground arith
lookup-without k j ((i, t) ∷ store) =
    ground (arith, eq_iff i k, eq_iff i j, eq_iff k j, lookup-without k j store)

-- a built-in template is not one's own
own-builtin :
    (k j : String) (store : Store) (t u : AgentTemplate)
    → lookup k store ≡ some t
    → t.is_builtin ≡ true
    → own (lookup j store) ≡ some u
    → (j == k) ≡ false
own-builtin k j store t u e b h = elim (Bool-cases (j == k)) [
  | inr other ↦ other
  | inl same ↦
      let at : lookup j store ≡ some t = ap (λ i. lookup i store) ((eq_iff j k).0 same) ∙ e in
      let h' = rw (at, b) at h in absurd (cc h')
]

apply-keeps :
    (store : Store) (c : Call) (k : String) (t : AgentTemplate)
    → lookup k store ≡ some t
    → t.is_builtin ≡ true
    → lookup k (apply store c) ≡ some t
unfolding apply get_template create_template update_template delete_template
apply-keeps store (creates j now request) k t e b = elim (Option-cases (lookup j store)) [
  | inr (u, used) ↦ rw (used, apply) e
  | inl fresh ↦ elim (Bool-cases (j == k)) [
    | inl same ↦
        let at : lookup j store ≡ lookup k store = ap (λ i. lookup i store) ((eq_iff j k).0 same) in
        absurd (cc (at, fresh, e))
    | inr other ↦ rw (fresh, apply, lookup-insert j k (made_from j now request) store, other) e
  ]
]
apply-keeps store (updates now j request) k t e b = elim (Option-cases (own (lookup j store))) [
  | inl closed ↦ rw (closed, apply) e
  | inr (u, found) ↦
      rw
        (
          found,
          apply,
          lookup-insert j k (changed now request u) store,
          own-builtin k j store t u e b found,
        )
        e
]
apply-keeps store (deletes j) k t e b = elim (Option-cases (own (lookup j store))) [
  | inl closed ↦ rw (closed, apply) e
  | inr (u, found) ↦
      rw (found, apply, lookup-without j k store, own-builtin k j store t u e b found) e
]

-- Whatever calls create, update and delete templates, where a new one has an identifier that is not
-- in use: a built-in template stays as it is.
pub run-keeps_builtin :
    (calls : List Call) (store : Store) (k : String) (t : AgentTemplate)
    → get_template store k ≡ some t
    → t.is_builtin ≡ true
    → get_template (run store calls) k ≡ some t
unfolding run get_template
run-keeps_builtin [] store k t e b = e
run-keeps_builtin (c ∷ calls) store k t e b =
    run-keeps_builtin calls (apply store c) k t (apply-keeps store c k t e b) b
